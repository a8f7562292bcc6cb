-- ===== src/Tests/Files.antt =====
-- The file with inode 3 of the small disk, whose two blocks do not lie in a row.
use demandos.Prelude.{
  ℕ, zero, suc, ◌+◌, ◌*◌, ◌/◌, ◌<◌, ◌≤◌, ◌≡◌, ◌↔◌, arith, zeros, refl, true, ◌^◌,
}
use demandos.Blk.Device.{byte_at}
use demandos.Ext2.Structs.{superblock_size, s_inode_size, i_block}
use demandos.Ext2.Inode.{set_atime_for_ino, set_ctime_for_ino, set_mtime_for_ino}
use demandos.Ext2.Inode.Laws.{IsInode, inode_on, SetsTime, set_times-SetsTime}
use demandos.Ext2.File.{read_from_ino, write_to_ino}
use demandos.Ext2.File.Place.{IsMapped}
use demandos.Ext2.File.Frame.{IsFile, IsApart, file_place}
use demandos.Ext2.File.Laws.{read_from_ino-write_to_ino}
use demandos.Ext2.Superblock.{actual_block_size, read_superblock, read_superblock_lem}
use demandos.Tests.Devices.{ram, ram-IsReliable, small_superblock, small_disk, counting}

pub file-IsInode : IsInode ram small_disk small_superblock 3
file-IsInode = record {
  positive = omega arith;
  word = omega arith;
  grouped = omega arith;
  table_low = omega arith;
}

below_two : (P : ℕ → Type 0) → P 0 → P 1 → (i : ℕ) → i < 2 → P i
below_two P a b zero h = a
below_two P a b (suc zero) h = b
below_two P a b (suc (suc i)) h = absurd (omega arith)

-- The block numbers are 10 and 12.
file-IsMapped : IsMapped (inode_on ram small_disk small_superblock 3) 2
file-IsMapped = record {
  direct = omega arith;
  low =
      below_two (λ i. i_block (inode_on ram small_disk small_superblock 3) i < 2 ^ 22) (omega arith)
        (omega arith);
  apart = λ i j h k.
      below_two
        (λ i.
          i_block (inode_on ram small_disk small_superblock 3) i
            ≡ i_block (inode_on ram small_disk small_superblock 3) j
          → i ≡ j)
        (below_two (λ j. 10 ≡ i_block (inode_on ram small_disk small_superblock 3) j → 0 ≡ j)
          (λ e. refl) (λ e. absurd (omega arith)) j k)
        (below_two (λ j. 12 ≡ i_block (inode_on ram small_disk small_superblock 3) j → 1 ≡ j)
          (λ e. absurd (omega arith)) (λ e. refl) j k)
        i h;
}

pub small-IsFile : IsFile ram small_disk small_superblock 3 2
small-IsFile = record { inode = file-IsInode; mapped = file-IsMapped }

set_times-SetsTime_example :
    SetsTime ram zeros ram-IsReliable small_disk small_superblock 3 8 77
      (set_atime_for_ino ram zeros small_disk small_superblock 3 77)
    × SetsTime ram zeros ram-IsReliable small_disk small_superblock 3 12 77
        (set_ctime_for_ino ram zeros small_disk small_superblock 3 77)
    × SetsTime ram zeros ram-IsReliable small_disk small_superblock 3 16 77
        (set_mtime_for_ino ram zeros small_disk small_superblock 3 77)
set_times-SetsTime_example =
    set_times-SetsTime ram zeros ram-IsReliable small_disk small_superblock 3 77 file-IsInode

-- The file's blocks begin at 10240, behind the inode table.
pub file_high : (p : ℕ) → p < 2 * 1024 → 10240 ≤ file_place ram small_disk small_superblock 3 p
file_high p h =
    let block : p / 1024 < 2 = omega arith in
    let number =
      below_two (λ i. 10 ≤ i_block (inode_on ram small_disk small_superblock 3) i) (omega arith)
        (omega arith) (p / 1024) block in
    omega arith

file-IsApart : IsApart ram small_disk small_superblock 3 1000 100
file-IsApart = record {
  from_inode = λ i k h b e. absurd (omega (arith, file_high (1000 + i) (omega arith)));
  from_descriptor = λ i k h b e. absurd (omega (arith, file_high (1000 + i) (omega arith)));
}

read_from_ino-write_to_ino_example :
    let w = write_to_ino ram zeros small_disk small_superblock 3 counting 1000 100 in
    let r = read_from_ino ram zeros w.1 small_superblock 3 zeros 1000 100 in
    (w.0 ≡ 100) × (r.0 ≡ 100) × ((i : ℕ) → i < 100 → r.1 i ≡ counting i)
read_from_ino-write_to_ino_example =
    read_from_ino-write_to_ino ram zeros ram-IsReliable small_disk small_superblock counting zeros 3
      2 1000 100 small-IsFile file-IsApart (omega arith)

read_superblock_lem_example :
    let r = read_superblock ram small_disk zeros in
    ((i : ℕ) → i < superblock_size → r.1 i ≡ byte_at ram small_disk (1024 + i))
    × ((r.0.0 ≡ true) ↔ ((actual_block_size r.1 ≡ 1024) × (s_inode_size r.1 ≡ 256)))
    × ((m j : ℕ) → ram.disk r.2 m j ≡ small_disk m j)
read_superblock_lem_example = read_superblock_lem ram small_disk zeros ram-IsReliable
