-- ===== src/Ext2/Structs.antt =====
-- The packed structs of include/ext2.h: a struct is the bytes at its address, and a field is a
-- little-endian word at the field's offset.
use demandos.Prelude.{
  ℕ, ◌+◌, ◌-◌, ◌*◌, ◌/◌, ◌%◌, ◌^◌, Bytes, le16, le32, put32, ◌==◌, if◌then◌else◌, w32,
}

-- EXT2_SUPPORTED_BLOCK_SIZE, EXT2_MAX_DIRECT_BLOCKS_PER_INODE
abbrev pub block_size : ℕ
block_size = 1024

abbrev pub max_direct_blocks : ℕ
max_direct_blocks = 13

-- sizeof of the superblock, a block group's descriptor, an inode and the fixed part of an entry.
abbrev pub superblock_size : ℕ
superblock_size = 1024

abbrev pub blockgroup_size : ℕ
blockgroup_size = 32

abbrev pub inode_size : ℕ
inode_size = 256

abbrev pub dirent_size : ℕ
dirent_size = 8

-- EXT2_FIRST_OFFSET_AFTER_SUPERBLOCK
abbrev pub first_offset_after_superblock : ℕ
first_offset_after_superblock = 1024 + superblock_size

-- struct ext2_superblock
abbrev pub s_inodes_count : Bytes → ℕ
s_inodes_count b = le32 b 0

abbrev pub s_blocks_count : Bytes → ℕ
s_blocks_count b = le32 b 4

abbrev pub s_log_block_size : Bytes → ℕ
s_log_block_size b = le32 b 24

abbrev pub s_blocks_per_group : Bytes → ℕ
s_blocks_per_group b = le32 b 32

abbrev pub s_inodes_per_group : Bytes → ℕ
s_inodes_per_group b = le32 b 40

abbrev pub s_rev_level : Bytes → ℕ
s_rev_level b = le32 b 76

abbrev pub s_inode_size : Bytes → ℕ
s_inode_size b = le32 b 88

-- struct ext2_blockgroup
abbrev pub bg_inode_table : Bytes → ℕ
bg_inode_table b = le32 b 8

-- struct ext2_inode. A block index past the array reads the bytes behind it, as the source does.
abbrev pub i_block : Bytes → ℕ → ℕ
i_block b i = le32 b (40 + 4 * i)

abbrev pub i_atime : Bytes → ℕ
i_atime b = le32 b 8

abbrev pub i_ctime : Bytes → ℕ
i_ctime b = le32 b 12

abbrev pub i_mtime : Bytes → ℕ
i_mtime b = le32 b 16

abbrev pub set_i_atime : Bytes → ℕ → Bytes
set_i_atime b = put32 b 8

abbrev pub set_i_ctime : Bytes → ℕ → Bytes
set_i_ctime b = put32 b 12

abbrev pub set_i_mtime : Bytes → ℕ → Bytes
set_i_mtime b = put32 b 16

-- struct ext2_dirent at an offset of a buffer; its name follows the fixed part.
abbrev pub dirent_inode : Bytes → ℕ → ℕ
dirent_inode b o = le32 b o

abbrev pub rec_len : Bytes → ℕ → ℕ
rec_len b o = le16 b (o + 4)

abbrev pub name_len : Bytes → ℕ → ℕ
name_len b o = b (o + 6) % 256

abbrev pub name_byte : Bytes → ℕ → ℕ → ℕ
name_byte b o i = b (o + dirent_size + i) % 256

-- INODE_TABLE_LOC and INODE_LOC_IN_TABLE, on uint32_t. Division by 0, which C leaves open, gives
-- what RISC-V gives: all ones, and the dividend as the remainder.
unfoldable pub inode_table_loc : ℕ → ℕ → ℕ
inode_table_loc ino per_group =
    if per_group == 0 then 2 ^ 32 - 1 else w32 (ino + (2 ^ 32 - 1)) / per_group

unfoldable pub inode_loc_in_table : ℕ → ℕ → ℕ
inode_loc_in_table ino per_group = w32 (ino + (2 ^ 32 - 1)) % per_group
