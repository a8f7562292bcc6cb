-- ===== src/Tests/Sectors.antt =====
-- A block device that keeps its sectors in memory, on the other side of a ring of four descriptors.
use demandos.Prelude.{
  ℕ, ◌+◌, ◌%◌, ◌<◌, ◌≡◌, ◌≢◌, ◌∙◌, inl, inr, refl, ap, arith, Bytes, true, false, some, List, [],
  ◌∷◌, Bool-cases, zeros, copy, copy_inside, Apart, ltb, ◌==◌, if◌then◌else◌, w16, le32, le64,
}
use demandos.Blk.Device.{Image, sector_size}
use demandos.Memory.Arena.{store}
use demandos.Vring.{Vring}
use demandos.Vring.Chain.{Buffer, data_size, status_size}
use demandos.Vring.Wait.{Serves}
use demandos.Blk.Sectors.{
  Hardware, Places, Sectors, read_op, write_op, request_chain, read_sector_sync, write_sector_sync,
}
use demandos.Blk.Sectors.Serving.{IsServing, IsPlaced}
use demandos.Blk.Sectors.Refine.{virtio_disk, virtio_disk_lem}
use demandos.Blk.Sectors.Reliable.{Succeeds}
use demandos.Io.Console.{post_buffer, write_stdout, write_stdout-IsServing}
use demandos.Blk.Sectors.{device_chain}
use demandos.Tests.Devices.{small_disk, counting}

-- It answers each chain of three buffers with status 0.
pub ram_serve : Image → Bytes → List Buffer → Bytes × Image
ram_serve d mem ((h, _, _) ∷ (a, _, _) ∷ (st, _, _) ∷ []) =
    let n = le64 mem (h + 8) in
    if le32 mem h == 0
    then (store (copy mem a (d n) 0 sector_size) st 0, d)
    else (store mem st 0, λ m. if m == n then (λ j. mem (a + j)) else d m)
ram_serve d mem other = (mem, d)

byte_outside :
    (a st j : ℕ) → Apart a data_size st status_size → j < sector_size → (a + j == st) ≡ false
byte_outside a st j (inl before) h = ground arith
byte_outside a st j (inr behind) h = ground arith

pub ram_read_served :
    (d : Image) (mem : Bytes) (h a st : ℕ)
    → le32 mem h ≡ read_op
    → Apart a data_size st status_size
    → let r = ram_serve d mem (request_chain h a true st) in
      ((m j : ℕ) → r.1 m j ≡ d m j)
      × (r.0 st % 256 ≡ 0 → (j : ℕ) → j < sector_size → r.0 (a + j) ≡ d (le64 mem (h + 8)) j)
unfolding ram_serve
ram_read_served d mem h a st type apart =
    let reads : (le32 mem h == 0) ≡ true = ground arith in
    rw reads (
      (λ m j. refl),
      (λ ok j low.
          unfold store in
          rw (byte_outside a st j apart low) (
            copy_inside mem (d (le64 mem (h + 8))) a 0 sector_size (a + j) (omega arith)
              (omega arith)
            ∙ ap (d (le64 mem (h + 8))) (omega arith))),
    )

pub ram_write_served :
    (d : Image) (mem : Bytes) (h a st : ℕ)
    → le32 mem h ≡ write_op
    → Apart a data_size st status_size
    → let r = ram_serve d mem (request_chain h a false st) in
      ((m j : ℕ) → m ≢ le64 mem (h + 8) → r.1 m j ≡ d m j)
      × (r.0 st % 256 ≡ 0 → (j : ℕ) → j < sector_size → r.1 (le64 mem (h + 8)) j ≡ mem (a + j))
unfolding ram_serve
ram_write_served d mem h a st type apart =
    let writes : (le32 mem h == 0) ≡ false = ground arith in
    let own : (le64 mem (h + 8) == le64 mem (h + 8)) ≡ true = ground arith in
    rw writes (
      (λ m j other.
          let differs : (m == le64 mem (h + 8)) ≡ false = ground arith in rw differs refl),
      (λ ok j low. rw own refl),
    )

-- The count moves at the third read.
abbrev pub third_read : ℕ → ℕ → ℕ
third_read c j = if ltb j 2 then c else w16 (c + 1)

pub third_read-Serves : (c : ℕ) → Serves 10 c (third_read c)
third_read-Serves c = record {
  steps = λ j. elim (Bool-cases (ltb j 2)) [ inl e ↦ inl (rw e refl) | inr e ↦ inr (rw e refl) ];
  moves = (2, omega arith, refl);
}

abbrev pub ram_hardware : Hardware
ram_hardware = record {
  Disk = Image;
  contents = λ d. d;
  serve = ram_serve;
  patience = 10;
  reads = third_read;
  counts = λ c h. third_read-Serves c;
  read_served = ram_read_served;
  write_served = ram_write_served;
}

pub ram_hardware-Succeeds : Succeeds ram_hardware
unfolding ram_serve store
ram_hardware-Succeeds = record {
  read_ok = λ d mem h a st type apart.
      let reads : (le32 mem h == 0) ≡ true = ground arith in
      let own : (st == st) ≡ true = ground arith in rw (reads, own) refl;
  write_ok = λ d mem h a st type apart.
      let writes : (le32 mem h == 0) ≡ false = ground arith in
      let own : (st == st) ≡ true = ground arith in rw (writes, own) refl;
}

-- Two requests have been made on it; the memory of its rings was zero.
abbrev pub served_ring : Vring
served_ring = record {
  num = 4;
  size = 8192;
  bookeeping = record {
    used_last = 2;
    avail_next = 2;
    avail_avail = 4;
    used_avail = 4;
    descr_head = 0;
    descr_next = 0;
  };
  desc_addr = 4096;
  avail_addr = 4160;
  used_addr = 8192;
  desc = λ i. record { addr = 0; len = 0; flags = 0; next = 0 };
  avail_flags = 1;
  avail_idx = 2;
  avail_ring = λ i. 0;
}

pub served_ring-IsServing : IsServing served_ring
served_ring-IsServing = record {
  ready = record { enough = omega arith; bounded = omega arith; in_table = omega arith };
  slots = λ i h. refl;
  avail_word = omega arith;
  used_word = omega arith;
}

abbrev pub stack : Places
stack = record { header = 1000; status = 3000; addr = 2000 }

pub stack-IsPlaced : IsPlaced stack
stack-IsPlaced = record {
  header_word = omega arith;
  addr_word = omega arith;
  status_word = omega arith;
  header_data = inl (omega arith);
  header_status = inl (omega arith);
  data_status = inl (omega arith);
}

abbrev pub sectors : Sectors ram_hardware
sectors = record { ring = served_ring; stored = small_disk }

virtio_disk_lem_example :
    let disk = virtio_disk ram_hardware zeros stack stack-IsPlaced in
    let (red_status, red_bytes, after) =
      disk.read_sector (sectors, served_ring-IsServing) 18 counting in
    let (wrote_status, after') = disk.write_sector (sectors, served_ring-IsServing) 18 counting in
    (read_sector_sync ram_hardware zeros stack sectors 18 counting
      ≡ some (red_status, red_bytes, after.0))
    × ((b' : Bytes) × (write_sector_sync ram_hardware zeros stack sectors 18 counting
          ≡ some (wrote_status, b', after'.0)))
virtio_disk_lem_example =
    virtio_disk_lem ram_hardware zeros stack stack-IsPlaced sectors served_ring-IsServing 18
      counting

write_stdout-IsServing_example :
    (told after : Vring) × (post_buffer served_ring 5000 12 ≡ some (0, told))
    × (device_chain told ≡ (5000, 12, false) ∷ [])
    × (write_stdout 10 (third_read 2) true served_ring 5000 12 ≡ some (12, after))
    × IsServing after
write_stdout-IsServing_example =
    write_stdout-IsServing served_ring 5000 12 served_ring-IsServing 10 (third_read 2) (omega arith)
      (omega arith) (third_read-Serves 2)
