-- ===== src/Ext2/File.antt =====
-- Reading and writing the bytes of a file by its inode number: `read_from_ino`, `write_to_ino`, and
-- the block operations.
pub mod Place
pub mod Frame
pub mod Read
pub mod Write
pub mod Laws
use demandos.Prelude.{
  ℕ, zero, suc, ◌+◌, ◌-◌, ◌*◌, ◌/◌, ◌%◌, Bytes, Bool, ltb, ◌==◌, if◌then◌else◌, w32, w64, minus_one,
}
use demandos.Blk.Device.{BlockDevice}
use demandos.Blk.{min_of, read_sync, write_sync}
use demandos.Ext2.Structs.{block_size, i_block}
use demandos.Ext2.Inode.{inode_from_ino}

-- The pointer `buffer + n`, and a buffer after what was done through that pointer.
abbrev pub from_place : Bytes → ℕ → Bytes
from_place b n i = b (n + i)

abbrev pub back_at : Bytes → ℕ → Bytes → Bytes
back_at b n part i = if ltb i n then b i else part (i - n)

-- The place on the disk of byte `pos` of a file: the number of the block is a uint32_t, and so is its
-- product with the block size.
unfoldable pub disk_place : Bytes → ℕ → ℕ
disk_place inode pos = w64 (w32 (i_block inode (pos / block_size) * block_size) + pos % block_size)

module _ (dev : BlockDevice) where
  open dev use {State}

  unfoldable pub ext2_read_block : State → ℕ → Bytes → Bool × Bytes × State
  ext2_read_block s block_no buffer =
      let (result, buffer', s') = read_sync dev s buffer (w32 (block_no * block_size)) block_size in
      (result == block_size, buffer', s')

  -- A whole block is written, also at an offset.
  unfoldable pub ext2_write_block : State → ℕ → ℕ → Bytes → Bool × State
  ext2_write_block s block_no block_offset buffer =
      let (result, s') =
        write_sync dev s buffer (w32 (block_no * block_size + block_offset)) block_size in
      (result == block_size, s')

  -- The loops from `redden` and `written` on. A round moves on by at least one byte, so `len` rounds
  -- are enough.
  unfoldable pub read_blocks : ℕ → State → Bytes → Bytes → ℕ → ℕ → ℕ → ℕ × Bytes × State
  unfolding disk_place
  read_blocks zero s inode buffer offset len redden = (len, buffer, s)
  read_blocks (suc rounds) s inode buffer offset len redden =
      let next_read_pos = w64 (offset + redden) in
      let next_read_len = min_of (block_size - next_read_pos % block_size) (len - redden) in
      let (red, part, s') =
        read_sync dev s (from_place buffer redden) (disk_place inode next_read_pos) next_read_len in
      let buffer' = back_at buffer redden part in
      let rest = read_blocks rounds s' inode buffer' offset len (redden + red) in
      if ltb redden len
      then (if red == next_read_len then rest else (redden, buffer', s'))
      else (len, buffer, s)

  unfoldable pub write_blocks : ℕ → State → Bytes → Bytes → ℕ → ℕ → ℕ → ℕ × State
  unfolding disk_place
  write_blocks zero s inode buffer offset len written = (len, s)
  write_blocks (suc rounds) s inode buffer offset len written =
      let next_write_pos = w64 (offset + written) in
      let next_write_len = min_of (block_size - next_write_pos % block_size) (len - written) in
      let (wrote, s') =
        write_sync dev s (from_place buffer written) (disk_place inode next_write_pos)
          next_write_len in
      let rest = write_blocks rounds s' inode buffer offset len (written + wrote) in
      if ltb written len
      then (if wrote == next_write_len then rest else (written, s'))
      else (len, s)

module _ (dev : BlockDevice) (uninit : Bytes) where
  open dev use {State}

  unfoldable pub read_from_ino : State → Bytes → ℕ → Bytes → ℕ → ℕ → ℕ × Bytes × State
  unfolding read_blocks
  read_from_ino s superblock ino buffer offset len =
      let (found_inode, inode, s') = inode_from_ino dev uninit s superblock uninit ino in
      if found_inode
      then read_blocks dev len s' inode buffer offset len 0
      else (minus_one, buffer, s')

  unfoldable pub write_to_ino : State → Bytes → ℕ → Bytes → ℕ → ℕ → ℕ × State
  unfolding write_blocks
  write_to_ino s superblock ino buffer offset len =
      let (found_inode, inode, s') = inode_from_ino dev uninit s superblock uninit ino in
      if found_inode then write_blocks dev len s' inode buffer offset len 0 else (minus_one, s')
