-- ===== src/Tests/Devices.antt =====
-- A disk in memory, of which sectors may fail, and a small ext2 file system on it.
use demandos.Prelude.{
  ℕ, ◌+◌, ◌*◌, ◌^◌, ◌<◌, ◌≡◌, ◌≢◌, ◌∙◌, refl, ap, arith, Bytes, true, List, [], ◌∷◌, copy_inside,
  ◌==◌, if◌then◌else◌,
}
use demandos.Blk.Device.{BlockDevice, IsReliable, Image, image_read, image_write, sector_size}

module _ (status : ℕ → ℕ) where
  pub image_read_data :
      (d : Image) (n : ℕ) (b : Bytes) (j : ℕ)
      → n < 2 ^ 64
      → (image_read status d n b).0 ≡ 0
      → j < sector_size
      → (image_read status d n b).1 j ≡ d n j
  image_read_data d n b j low e h =
      let good : (status n == 0) ≡ true = ground arith in
      rw good (copy_inside b (d n) 0 0 sector_size j (omega arith) h ∙ ap (d n) (omega arith))

  pub image_write_data :
      (d : Image) (n : ℕ) (b : Bytes) (j : ℕ)
      → n < 2 ^ 64
      → (image_write status d n b).0 ≡ 0
      → j < sector_size
      → (image_write status d n b).1 n j ≡ b j
  image_write_data d n b j low e h =
      let good : (status n == 0) ≡ true = ground arith in
      let here : (n == n) ≡ true = ground arith in
      rw (good, here) (copy_inside (d n) b 0 0 sector_size j (omega arith) h ∙ ap b (omega arith))

  pub image_write_other :
      (d : Image) (n : ℕ) (b : Bytes) (m j : ℕ)
      → n < 2 ^ 64
      → m ≢ n
      → (image_write status d n b).1 m j ≡ d m j
  image_write_other d n b m j low h = ground arith

-- The disk whose sector n answers with the status n.
abbrev pub disk_with : (ℕ → ℕ) → BlockDevice
disk_with status = record {
  State = Image;
  disk = λ d. d;
  read_sector = image_read status;
  write_sector = image_write status;
  read_keeps = λ s n b m j. refl;
  read_data = image_read_data status;
  write_data = image_write_data status;
  write_other = image_write_other status;
}

abbrev pub ram : BlockDevice
ram = disk_with (λ n. 0)

pub ram-IsReliable : IsReliable ram
ram-IsReliable = record { reads = λ s n b. refl; writes = λ s n b. refl }

-- The disk whose sector 1 cannot be used.
abbrev pub broken : BlockDevice
broken = disk_with (λ n. if n == 1 then 2 else 0)

-- A buffer that is 0 but for the places listed.
abbrev pub bytes_at : List (ℕ × ℕ) → Bytes
bytes_at [] i = 0
bytes_at ((place, byte) ∷ rest) i = if i == place then byte else bytes_at rest i

-- The bytes 0, 1, 2 ...
abbrev pub counting : Bytes
counting i = i

-- Sixteen inodes to a group.
abbrev pub small_superblock : Bytes
small_superblock = bytes_at ((40, 16) ∷ [])

-- The inode table in block 5; inode 2, the root, with its entries in block 9, of which the only one is
-- "testing.txt" with inode 3; that inode, with blocks 10 and 12, and inode 4, with block 13.
abbrev pub small_disk : Image
small_disk n j =
    bytes_at
      ((1113, 1)
        ∷ (2056, 5)
        ∷ (5416, 9)
        ∷ (5672, 10)
        ∷ (5676, 12)
        ∷ (5928, 13)
        ∷ (9216, 3)
        ∷ (9221, 4)
        ∷ (9222, 11)
        ∷ (9224, 116)
        ∷ (9225, 101)
        ∷ (9226, 115)
        ∷ (9227, 116)
        ∷ (9228, 105)
        ∷ (9229, 110)
        ∷ (9230, 103)
        ∷ (9231, 46)
        ∷ (9232, 116)
        ∷ (9233, 120)
        ∷ (9234, 116)
        ∷ [])
      (n * 512 + j)
