-- ===== src/Blk/Device.antt =====
-- The sector operations that src/blk.c stands on, `virtio_blk_read_sector_sync` and
-- `virtio_blk_write_sector_sync`, as an interface: what they do is up to the device.
use demandos.Prelude.{◌^◌, ℕ, ◌/◌, ◌%◌, ◌<◌, ◌≡◌, ◌≢◌, Bytes, copy, ◌==◌, if◌then◌else◌}

-- VIRTIO_BLK_SIZE
abbrev pub sector_size : ℕ
sector_size = 512

-- A status of 0 says that the operation was done. A read leaves the disk as it is; a write
-- that fails may leave its own sector in any state.
pub record BlockDevice : Type 1 where
  pub State : Type 0
  pub disk : State → ℕ → Bytes
  pub read_sector : State → ℕ → Bytes → ℕ × Bytes × State
  pub write_sector : State → ℕ → Bytes → ℕ × State
  pub read_keeps :
      (s : State) (n : ℕ) (b : Bytes) (m j : ℕ) → disk (read_sector s n b).2 m j ≡ disk s m j
  pub read_data :
      (s : State) (n : ℕ) (b : Bytes) (j : ℕ)
      → n < 2 ^ 64
      → (read_sector s n b).0 ≡ 0
      → j < sector_size
      → (read_sector s n b).1 j ≡ disk s n j
  pub write_data :
      (s : State) (n : ℕ) (b : Bytes) (j : ℕ)
      → n < 2 ^ 64
      → (write_sector s n b).0 ≡ 0
      → j < sector_size
      → disk (write_sector s n b).1 n j ≡ b j
  pub write_other :
      (s : State) (n : ℕ) (b : Bytes) (m j : ℕ)
      → n < 2 ^ 64
      → m ≢ n
      → disk (write_sector s n b).1 m j ≡ disk s m j

-- Byte `p` of the disk, and the devices on which nothing fails.
module _ (dev : BlockDevice) where
  open dev use {State, disk, read_sector, write_sector}

  abbrev pub byte_at : State → ℕ → ℕ
  byte_at s p = disk s (p / sector_size) (p % sector_size)

  pub record IsReliable : Type 0 where
    pub reads : (s : State) (n : ℕ) (b : Bytes) → (read_sector s n b).0 ≡ 0
    pub writes : (s : State) (n : ℕ) (b : Bytes) → (write_sector s n b).0 ≡ 0

-- A disk of bytes in memory of which some sectors fail.
abbrev pub Image : Type 0
Image = ℕ → Bytes

abbrev pub image_read : (ℕ → ℕ) → Image → ℕ → Bytes → ℕ × Bytes × Image
image_read status d n b = (status n, (if status n == 0 then copy b 0 (d n) 0 sector_size else b), d)

abbrev pub image_write : (ℕ → ℕ) → Image → ℕ → Bytes → ℕ × Image
image_write status d n b = (
  status n,
  λ m. if status n == 0 then (if m == n then copy (d n) 0 b 0 sector_size else d m) else d m,
)
