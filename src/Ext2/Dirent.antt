-- ===== src/Ext2/Dirent.antt =====
-- `inode_from_dir`: a directory's blocks are searched entry by entry, each entry being copied to the
-- front of the buffer that holds the block.
pub mod Names
pub mod Walk
pub mod Debug
use demandos.Prelude.{
  ℕ, zero, suc, ◌+◌, ◌*◌, ◌%◌, Bytes, Bool, true, false, Option, none, some, List, [], ◌∷◌, copy,
  ltb, ◌==◌, if◌then◌else◌, w32,
}
use demandos.Blk.Device.{BlockDevice}
use demandos.Blk.{read_sync}
use demandos.Ext2.Structs.{
  block_size, dirent_size, max_direct_blocks, i_block, dirent_inode, rec_len, name_len, name_byte,
}
use demandos.Ext2.Inode.{inode_from_ino}

-- strncmp(de->name, path, n) == 0, from the i-th byte of both on. `path` is a C string without its
-- terminating NUL; a name that ends in a NUL with it is equal.
unfoldable pub name_matches : ℕ → (ℕ → ℕ) → ℕ → List ℕ → Bool
name_matches zero name i path = true
name_matches (suc n) name i [] = name i == 0
name_matches (suc n) name i (c ∷ path) =
    let rest = name_matches n name (i + 1) path in if name i == c then rest else false

-- What the search of a block comes to: the number of the inode of the entry found; nothing; or no end
-- within `block_size` rounds, which takes a record length of 0, where the loop stays at its entry.
pub data Search : Type 0 where
  found : ℕ → Search
  missing : Search
  hangs : Search

-- memcpy of the fixed part to the front, then of as much as the record length says.
unfoldable pub copy_entry : Bytes → ℕ → Bytes
copy_entry buffer o =
    let fixed = copy buffer 0 buffer o dirent_size in copy fixed 0 fixed o (rec_len fixed 0)

-- The `while` loop over a block. Each round moves on by at least one byte unless the record length
-- is 0, so `block_size` rounds are enough.
unfoldable pub search_block : ℕ → Bytes → ℕ → List ℕ → Search
unfolding copy_entry name_matches
search_block zero buffer o path = if ltb o block_size then hangs else missing
search_block (suc rounds) buffer o path =
    let de = copy_entry buffer o in
    let rest = search_block rounds de (o + rec_len de 0) path in
    let hit = name_matches (name_len de 0) (name_byte de 0) 0 path in
    if ltb o block_size then (if hit then found (dirent_inode de 0) else rest) else missing

-- What `inode_from_dir` leaves: its result, the inode and the inode number that it wrote through
-- its pointers.
pub record Found : Type 0 where
  pub result : Bool
  pub inode : Bytes
  pub ino : Option ℕ

module _ (dev : BlockDevice) (uninit : Bytes) where
  open dev use {State}

  -- The `for` loop over the blocks of a directory from the `o`-th on. The result of the read is not
  -- tested.
  unfoldable pub search_blocks : ℕ → State → Bytes → List ℕ → ℕ → Search × State
  unfolding search_block
  search_blocks zero s dir path o = (missing, s)
  search_blocks (suc blocks) s dir path o =
      let (_, buffer, s') = read_sync dev s uninit (w32 (i_block dir o * 1024)) block_size in
      let rest = search_blocks blocks s' dir path (o + 1) in
      let here = search_block block_size buffer 0 path in
      if i_block dir o == 0
      then (missing, s)
      else (elim here [ missing ↦ rest | found ino ↦ (found ino, s') | hangs ↦ (hangs, s') ])

  -- `none` is a search that never ends.
  unfoldable pub inode_from_dir : State → Bytes → List ℕ → Bytes → Bytes → Option (Found × State)
  unfolding search_blocks
  inode_from_dir s superblock path dir inode =
      let (end, s') = search_blocks max_direct_blocks s dir path 0 in
      elim end [
        | hangs ↦ none
        | missing ↦ some (record { result = false; inode = inode; ino = none }, s')
        | found ino ↦
            let (ok, inode', s'') = inode_from_ino dev uninit s' superblock inode ino in
            some (record { result = ok; inode = inode'; ino = some ino }, s'')
      ]
