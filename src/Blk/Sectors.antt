-- ===== src/Blk/Sectors.antt =====
-- `virtio_blk_read_sector_sync` and `virtio_blk_write_sector_sync` of src/blk.c, from the request in
-- memory to the status byte, with the device on the other side of the ring as an interface.
pub mod Serving
pub mod Refine
pub mod Reliable
use demandos.Prelude.{
  ℕ, ◌+◌, ◌-◌, ◌*◌, ◌/◌, ◌%◌, ◌^◌, ◌≤◌, ◌<◌, ◌≡◌, ◌≢◌, ◌⊎◌, Bytes, Bool, true, false, Option, some,
  List, [], ◌∷◌, copy, Apart, ◌==◌, ◌>>=◌, if◌then◌else◌, w16, le32, le64, put32, put64,
}
use demandos.Blk.Device.{sector_size}
use demandos.Vring.{Vring, descr_writable, vring_wait_completion, vring_unuse_descr}
use demandos.Vring.Wait.{Serves}
use demandos.Vring.Chain.{header_size, data_size, status_size, Buffer, post_request, walk}

-- VIRTIO_BLK_READ_OP, VIRTIO_BLK_WRITE_OP
abbrev pub read_op : ℕ
read_op = 0

abbrev pub write_op : ℕ
write_op = 1

-- The chain of a block request: the header, the data that the device may write or not, the status.
abbrev pub request_chain : ℕ → ℕ → Bool → ℕ → List Buffer
request_chain header addr writable status =
    (header, header_size, false) ∷ (addr, data_size, writable) ∷ (status, status_size, true) ∷ []

-- A block device of the VIRTIO standard, as far as the driver relies on it. `serve` is what it does to
-- its disk and to the memory when it is given a chain; a status of 0 is VIRTIO_BLK_S_OK. A request that
-- fails may leave its buffer, or its sector, in any state. `reads c` are the values of used->idx, read
-- one after the other, while the request after the c-th is served.
pub record Hardware : Type 1 where
  pub Disk : Type 0
  pub contents : Disk → ℕ → Bytes
  pub serve : Disk → Bytes → List Buffer → Bytes × Disk
  pub patience : ℕ
  pub reads : ℕ → ℕ → ℕ
  pub counts : (c : ℕ) → c < 2 ^ 16 → Serves patience c (reads c)
  pub read_served :
      (d : Disk) (mem : Bytes) (h a st : ℕ)
      → le32 mem h ≡ read_op
      → Apart a data_size st status_size
      → let r = serve d mem (request_chain h a true st) in
        ((m j : ℕ) → contents r.1 m j ≡ contents d m j)
        × (r.0 st % 256 ≡ 0
            → (j : ℕ) → j < sector_size
            → r.0 (a + j) ≡ contents d (le64 mem (h + 8)) j)
  pub write_served :
      (d : Disk) (mem : Bytes) (h a st : ℕ)
      → le32 mem h ≡ write_op
      → Apart a data_size st status_size
      → let r = serve d mem (request_chain h a false st) in
        ((m j : ℕ) → m ≢ le64 mem (h + 8) → contents r.1 m j ≡ contents d m j)
        × (r.0 st % 256 ≡ 0
            → (j : ℕ) → j < sector_size
            → contents r.1 (le64 mem (h + 8)) j ≡ mem (a + j))

-- Where the compiler put the header, the status, and the caller's buffer: 16, 1 and 512 bytes.
pub record Places : Type 0 where
  pub header : ℕ
  pub status : ℕ
  pub addr : ℕ

-- The memory when the device is told: the type and the sector stored in the header, with its `ioprio`
-- and all else as it was, the status 0xff, and the buffer as the caller passes it.
unfoldable pub request_memory : Bytes → Places → ℕ → ℕ → Bytes → Bytes
request_memory memory at type sector buffer =
    let passed = copy memory at.addr buffer 0 sector_size in
    let marked = λ (i : ℕ). if i == at.status then 255 else passed i in
    put64 (put32 marked at.header type) (at.header + 8) sector

-- The chain that a device of the standard finds when it is told of the request that was posted last:
-- it looks in the slot of the count of requests before, modulo the size of the queue.
unfoldable pub device_chain : Vring → List Buffer
unfolding walk
device_chain v = walk v.num v.desc (v.avail_ring (w16 (v.avail_idx + (2 ^ 16 - 1)) % v.num))

-- The driver's ring and the device's disk.
pub record Sectors (hw : Hardware) : Type 0 where
  pub ring : Vring
  pub stored : hw.Disk

module _ (hw : Hardware) (memory : Bytes) (at : Places) where
  -- What both functions do, but for the type of the request and the flags of the data. The result is
  -- the status, the caller's buffer, and what is left.
  unfoldable pub sector_sync : ℕ → ℕ → Sectors hw → ℕ → Bytes → Option (ℕ × Bytes × Sectors hw)
  unfolding post_request request_memory device_chain vring_unuse_descr vring_wait_completion
  sector_sync type data_flags s sector buffer = do
    (used, posted) ← post_request s.ring at.header data_flags at.addr at.status
    let (mem, stored) =
        hw.serve s.stored (request_memory memory at type sector buffer) (device_chain posted)
    completed ← vring_wait_completion hw.patience (hw.reads posted.used_last) posted
    some (
      mem at.status % 256,
      (λ (j : ℕ). mem (at.addr + j)),
      record { ring = vring_unuse_descr completed used; stored = stored },
    )

  unfoldable pub read_sector_sync : Sectors hw → ℕ → Bytes → Option (ℕ × Bytes × Sectors hw)
  unfolding sector_sync
  read_sector_sync = sector_sync read_op descr_writable

  unfoldable pub write_sector_sync : Sectors hw → ℕ → Bytes → Option (ℕ × Bytes × Sectors hw)
  unfolding sector_sync
  write_sector_sync = sector_sync write_op 0
