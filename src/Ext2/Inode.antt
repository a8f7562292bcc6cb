-- ===== src/Ext2/Inode.antt =====
-- Finding an inode on the disk, reading it, writing it and setting its times.
pub mod Laws
use demandos.Prelude.{ℕ, ◌+◌, ◌*◌, Bytes, Bool, true, false, ◌==◌, if◌then◌else◌, w32, w64}
use demandos.Blk.Device.{BlockDevice}
use demandos.Blk.{read_sync, write_sync}
use demandos.Ext2.Structs.{
  block_size, blockgroup_size, inode_size, first_offset_after_superblock, bg_inode_table,
  s_inodes_per_group, set_i_atime, set_i_ctime, set_i_mtime, inode_table_loc, inode_loc_in_table,
}

-- `uninit` is what a local variable holds before it is written.
module _ (dev : BlockDevice) (uninit : Bytes) where
  open dev use {State}

  -- The result is true whatever the read returned.
  unfoldable pub bg_from_bgno : State → Bytes → ℕ → Bool × Bytes × State
  bg_from_bgno s rbg bgno =
      let bg_sector = w64 (first_offset_after_superblock + bgno * blockgroup_size) in
      let (_, rbg', s') = read_sync dev s rbg bg_sector blockgroup_size in (true, rbg', s')

  -- The product with the block size is one of uint32_t.
  unfoldable pub ino_disk_offset : State → Bytes → ℕ → ℕ × State
  unfolding bg_from_bgno inode_table_loc inode_loc_in_table
  ino_disk_offset s superblock ino =
      let group = inode_table_loc ino (s_inodes_per_group superblock) in
      let index = inode_loc_in_table ino (s_inodes_per_group superblock) in
      let (_, bg, s') = bg_from_bgno s uninit group in
      (w64 (w32 (bg_inode_table bg * block_size) + index * inode_size), s')

  unfoldable pub inode_to_ino : State → Bytes → Bytes → ℕ → Bool × State
  unfolding ino_disk_offset
  inode_to_ino s superblock rinode ino =
      let (position, s') = ino_disk_offset s superblock ino in
      let (result, s'') = write_sync dev s' rinode position inode_size in
      (result == inode_size, s'')

  unfoldable pub inode_from_ino : State → Bytes → Bytes → ℕ → Bool × Bytes × State
  unfolding ino_disk_offset
  inode_from_ino s superblock rinode ino =
      let (position, s') = ino_disk_offset s superblock ino in
      let (result, rinode', s'') = read_sync dev s' rinode position inode_size in
      (result == inode_size, rinode', s'')

  -- The three functions that set a time differ in the field only.
  unfoldable pub set_time_for_ino : (Bytes → ℕ → Bytes) → State → Bytes → ℕ → ℕ → Bool × State
  unfolding inode_from_ino inode_to_ino
  set_time_for_ino set_field s superblock ino time =
      let (found, inode, s') = inode_from_ino s superblock uninit ino in
      if found then inode_to_ino s' superblock (set_field inode time) ino else (false, s')

  unfoldable pub set_atime_for_ino : State → Bytes → ℕ → ℕ → Bool × State
  unfolding set_time_for_ino
  set_atime_for_ino = set_time_for_ino set_i_atime

  unfoldable pub set_mtime_for_ino : State → Bytes → ℕ → ℕ → Bool × State
  unfolding set_time_for_ino
  set_mtime_for_ino = set_time_for_ino set_i_mtime

  unfoldable pub set_ctime_for_ino : State → Bytes → ℕ → ℕ → Bool × State
  unfolding set_time_for_ino
  set_ctime_for_ino = set_time_for_ino set_i_ctime
