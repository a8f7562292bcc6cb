-- ===== src/Ext2/SelfTest.antt =====
-- `test_ext2_implementation`, the test of the file system code on a prepared disk. What it prints is the
-- list of its messages; the pathnames and texts are those that the source names.
pub mod Spares
use demandos.Prelude.{
  ℕ, ◌+◌, ◌*◌, ◌%◌, ◌^◌, Bytes, Bool, true, false, not, ltb, Option, none, some, List, [], ◌∷◌,
  ◌++◌, map, ◌==◌, if◌then◌else◌, ◌>>=◌, le16, le32, w64, sign_extend, zeros,
}
use demandos.Blk.Device.{BlockDevice, sector_size}
use demandos.Blk.{sector_from_pos, read_sync}
use demandos.Ext2.Structs.{
  first_offset_after_superblock, s_inodes_count, s_blocks_count, s_log_block_size, bg_inode_table,
  i_block,
}
use demandos.Ext2.Superblock.{Complaint, read_superblock}
use demandos.Ext2.Inode.{inode_from_ino}
use demandos.Ext2.Dirent.Debug.{debug_dirent}
use demandos.Ext2.Path.{inode_from_path}
use demandos.Print.{eprint_num, eprint_bytes}

-- The fields that only the test reads.
abbrev pub s_first_inode : Bytes → ℕ
s_first_inode b = le32 b 84

abbrev pub bg_block_bitmap : Bytes → ℕ
bg_block_bitmap b = le32 b 0

abbrev pub bg_inode_bitmap : Bytes → ℕ
bg_inode_bitmap b = le32 b 4

abbrev pub bg_free_blocks_count : Bytes → ℕ
bg_free_blocks_count b = le16 b 12

abbrev pub bg_free_inodes_count : Bytes → ℕ
bg_free_inodes_count b = le16 b 14

-- The messages: whether a number is the proper one, the counts and the contents as they are printed, and
-- how a check of a file ends.
pub data Said : Type 0 where
  complained : Complaint → Said
  blocks_said inodes_said block_bitmap_said inode_bitmap_said inode_table_said : Bool → Said
  first_inode_said : Said
  free_blocks_said free_inodes_said : List ℕ → Said
  blank_contents eve_contents : List ℕ → Said
  success blank_failure eve_failure path_failure path_success : Said

-- How the test ends: it returns true at its end, it returns -1 early, which as a bool is true too, it
-- powers the machine off; it reads past the end of its array `buffer`, after which C says nothing; or it
-- never ends (or `debug_dirent` prints past an array).
pub data Verdict (State : Type 0) : Type 0 where
  passes : List Said → State → Verdict State
  refuses : List Said → State → Verdict State
  powers_off : List Said → State → Verdict State
  overruns : List Said → Verdict State
  hangs : Verdict State

-- 1024 << s_log_block_size, as an int that is widened to a uint64_t.
abbrev pub wide_block_size : Bytes → ℕ
wide_block_size superblock = sign_extend (1024 * 2 ^ (s_log_block_size superblock % 32))

-- !strncmp(text, buffer, strlen(text)), for a text of characters that are not 0.
unfoldable pub begins_with : List ℕ → Bytes → ℕ → Bool
begins_with [] buffer i = true
begins_with (c ∷ text) buffer i =
    let rest = begins_with text buffer (i + 1) in if c == buffer i % 256 then rest else false

unfoldable pub check_superblock : Bytes → List Said
check_superblock superblock =
    blocks_said (s_blocks_count superblock == 10000)
    ∷ inodes_said (s_inodes_count superblock == 2496)
    ∷ (if s_first_inode superblock == 11 then first_inode_said ∷ [] else [])

unfoldable pub check_group : Bytes → List Said
check_group bg =
    block_bitmap_said (bg_block_bitmap bg == 6)
    ∷ inode_bitmap_said (bg_inode_bitmap bg == 7)
    ∷ inode_table_said (bg_inode_table bg == 8)
    ∷ free_blocks_said (eprint_num (bg_free_blocks_count bg))
    ∷ free_inodes_said (eprint_num (bg_free_inodes_count bg))
    ∷ []

-- "/blank" and "testing", "/eve" and "adam", "/this/is/a/test"
abbrev pub blank_path : List ℕ
blank_path = 47 ∷ 98 ∷ 108 ∷ 97 ∷ 110 ∷ 107 ∷ []

abbrev pub blank_text : List ℕ
blank_text = 116 ∷ 101 ∷ 115 ∷ 116 ∷ 105 ∷ 110 ∷ 103 ∷ []

abbrev pub eve_path : List ℕ
eve_path = 47 ∷ 101 ∷ 118 ∷ 101 ∷ []

abbrev pub eve_text : List ℕ
eve_text = 97 ∷ 100 ∷ 97 ∷ 109 ∷ []

abbrev pub test_path : List ℕ
test_path = 47 ∷ 116 ∷ 104 ∷ 105 ∷ 115 ∷ 47 ∷ 105 ∷ 115 ∷ 47 ∷ 97 ∷ 47 ∷ 116 ∷ 101 ∷ 115 ∷ 116 ∷ []

-- What a check of a file leaves in `ino` and `buffer`.
pub record Checked : Type 0 where
  pub inode : Bytes
  pub buffer : Bytes

-- sizeof(buffer)
abbrev pub buffer_size : ℕ
buffer_size = 1024

-- `debug` is DEBUG_LEVEL > DEBUG_TRACE, for `debug_dirent`.
module _ (dev : BlockDevice) (uninit : Bytes) (debug : Bool) where
  open dev use {State, read_sector}

  -- The file is looked up and the first sector of its first block is read. Neither the result of the
  -- search nor the status of the read is tested. `none` is a search that never ends.
  unfoldable pub check_file : State → Bytes → Bytes → Bytes → List ℕ → Option (Checked × State)
  check_file s superblock inode buffer path =
      inode_from_path dev uninit s superblock path inode >>= λ r.
      let position = w64 (i_block r.1 0 * wide_block_size superblock) in
      let (_, buffer', s') = read_sector r.2 (sector_from_pos position) buffer in
      some (record { inode = r.1; buffer = buffer' }, s')

  unfoldable pub check_path : State → Bytes → List Said → Verdict State
  check_path s superblock said = elim (inode_from_path dev uninit s superblock test_path uninit) [
    | none ↦ hangs
    | some (ok, _, s') ↦
        if ok
        then passes (said ++ (path_success ∷ [])) s'
        else powers_off (said ++ (path_failure ∷ [])) s'
  ]

  unfoldable pub check_eve : State → Bytes → Checked → List Said → Verdict State
  check_eve s superblock before said =
      elim (check_file s superblock before.inode before.buffer eve_path) [
        | none ↦ hangs
        | some (c, s') ↦
            let lines = said ++ (eve_contents (eprint_bytes c.buffer sector_size 0) ∷ []) in
            if begins_with eve_text c.buffer 0
            then check_path s' superblock (lines ++ (success ∷ []))
            else powers_off (lines ++ (eve_failure ∷ [])) s'
      ]

  unfoldable pub check_blank : State → Bytes → Checked → List Said → Verdict State
  check_blank s superblock before said =
      elim (check_file s superblock before.inode before.buffer blank_path) [
        | none ↦ hangs
        | some (c, s') ↦
            let lines = said ++ (blank_contents (eprint_bytes c.buffer sector_size 0) ∷ []) in
            if begins_with blank_text c.buffer 0
            then check_eve s' superblock c (lines ++ (success ∷ []))
            else powers_off (lines ++ (blank_failure ∷ [])) s'
      ]

  -- The root directory is logged, and the files are checked.
  unfoldable pub check_files : State → Bytes → Bytes → List Said → Verdict State
  check_files s superblock buffer said =
      let (_, ino, s') = inode_from_ino dev uninit s superblock uninit 2 in
      elim (debug_dirent dev uninit debug s' ino) [
        | none ↦ hangs
        | some (_, s'') ↦ check_blank s'' superblock (record { inode = ino; buffer = buffer }) said
      ]

  -- The number of the bytes read, for which the array may be too small, is kept in a uint8_t.
  unfoldable pub test_ext2_implementation : State → Verdict State
  test_ext2_implementation s =
      let ((_, complaints), superblock, s') = read_superblock dev s uninit in
      let said = map complained complaints ++ check_superblock superblock in
      let (red, buffer, s'') =
        read_sync dev s' zeros first_offset_after_superblock (wide_block_size superblock) in
      let result = red % 256 in
      let after_read =
        if not (result == 0)
        then refuses said s''
        else check_files s'' superblock buffer (said ++ check_group buffer) in
      if ltb buffer_size red then overruns said else after_read
