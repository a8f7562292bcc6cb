-- ===== src/Tests/SelfTesting.antt =====
-- The test of the file system on the small disk, of which the sector with the block groups fails, and
-- the names that are logged of a directory.
use demandos.Prelude.{
  ℕ, ◌%◌, ◌≤◌, ◌≡◌, refl, copy, zeros, true, false, some, map, [], ◌∷◌, ◌++◌, ◌==◌, if◌then◌else◌,
}
use demandos.Ext2.Structs.{block_size, s_log_block_size, first_offset_after_superblock}
use demandos.Ext2.Dirent.Debug.{print_block, listing, print_block-listing}
use demandos.Ext2.Dirent.Walk.{offsets}
use demandos.Blk.{read_sync, read_loop, sector_from_pos, sector_offset_from_pos, min_of}
use demandos.Ext2.Keeps.{Same}
use demandos.Ext2.Superblock.{read_superblock}
use demandos.Ext2.SelfTest.{
  wide_block_size, buffer_size, complained, check_superblock, check_group, check_files,
  test_ext2_implementation,
}
use demandos.Ext2.SelfTest.Spares.{test_ext2_implementation-check_files}
use demandos.Print.{eprint_str, eprint_str_from}
use demandos.Tests.Devices.{disk_with, small_disk}
use demandos.Tests.Directories.{directory, directory_tiled, directory_short}

abbrev faulty : ℕ → ℕ
faulty n = if n == 4 then 1 else 0

small_blocks : s_log_block_size (read_superblock (disk_with faulty) small_disk zeros).1 % 32 ≡ 0
unfolding read_superblock read_sync read_loop sector_from_pos sector_offset_from_pos min_of copy
small_blocks = refl

test_ext2_implementation-check_files_example :
    let dev = disk_with faulty in
    let ((_, complaints), superblock, s') = read_superblock dev small_disk zeros in
    let (red, group, s'') =
      read_sync dev s' zeros first_offset_after_superblock (wide_block_size superblock) in
    let said = map complained complaints ++ check_superblock superblock in
    (red ≤ buffer_size)
    × (test_ext2_implementation dev zeros false small_disk
        ≡ check_files dev zeros false s'' superblock group (said ++ check_group group))
    × ((i : ℕ) → red ≤ i → group i ≡ 0)
    × Same dev small_disk s''
test_ext2_implementation-check_files_example =
    test_ext2_implementation-check_files (disk_with faulty) zeros false small_disk small_blocks

print_block-listing_example :
    print_block true block_size directory 0 ≡ some (listing directory (offsets directory_tiled))
print_block-listing_example = print_block-listing true directory directory_tiled directory_short

-- "a" and "ab", each in a line.
names_listed : listing directory (0 ∷ 12 ∷ []) ≡ 97 ∷ 10 ∷ 97 ∷ 98 ∷ 10 ∷ []
unfolding eprint_str eprint_str_from
names_listed = refl
