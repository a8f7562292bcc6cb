-- ===== src/Drivers/Disk.antt =====
-- The state in which `init_blk_virtio` leaves the disk's driver, and what it tells the device.
use demandos.Prelude.{
  ℕ, ◌+◌, ◌-◌, ◌*◌, ◌/◌, ◌^◌, ◌≤◌, ◌<◌, ◌≡◌, ◌↔◌, ◌∙◌, refl, sym, ap, arith, Bytes, true, some,
  List, [], ◌∷◌, ◌++◌, w32, w64,
}
use mathlib.Core.List.{append_assoc}
use demandos.Memory.Arena.{malloc}
use demandos.Memory.Forever.{
  Forever, forever_alloc_aligned, IsValid, forever_alloc_aligned-Allocates,
}
use demandos.Vring.{Vring}
use demandos.Vring.Layout.{page, virtq_size, vring_init, IsLaidOut, vring_init-IsLaidOut}
use demandos.Blk.Sectors.Serving.{IsServing}
use demandos.Drivers.{
  Store, VirtioDriver, Machine, vring_size, output, pci_device_set_bar, pci_device_set_status,
  virtio_device_set_status, virtio_device_queue_select, virtio_device_queue_desc_write, bring_up,
  virtio_device_queue_size_read, init_blk_virtio,
}

-- The stores to the registers, in their order: the window, no second one, the device up; acknowledged;
-- no feature; the queue; the page of its ring; the driver ready.
abbrev pub blk_stores : ℕ → ℕ → ℕ → ℕ → List Store
blk_stores conf host pci page_number =
    record { address = conf + 16; bytes = 4; value = pci }
    ∷ record { address = conf + 20; bytes = 4; value = 2 ^ 32 - 1 }
    ∷ record { address = conf + 4; bytes = 1; value = 7 }
    ∷ record { address = host + 18; bytes = 1; value = 1 }
    ∷ record { address = host + 4; bytes = 4; value = 0 }
    ∷ record { address = host + 14; bytes = 2; value = 0 }
    ∷ record { address = host + 8; bytes = 4; value = page_number }
    ∷ record { address = host + 18; bytes = 1; value = 6 }
    ∷ []

module _ (input : List Store → ℕ → ℕ) (raw : Forever → Vring) where
  -- The size that the device gives for the queue, after the stores before it.
  abbrev pub queue_size : Machine → ℕ → ℕ → ℕ → ℕ
  queue_size m conf host pci =
      virtio_device_queue_size_read input
        (virtio_device_queue_select (output (bring_up m conf host pci) (host + 4) 4 0) host 0) host

  -- The driver of a disk whose queue has `len` entries, with its ring at `a`, and what its device was
  -- told. The table has room for the descriptors of the queue just where that has at most 256 entries,
  -- the available ring lies where a device looks for it just where it has 256, and then the ring serves.
  pub record Disks (m : Machine) (conf host pci a len : ℕ) (r : VirtioDriver × Machine)
      : Type 0 where
    pub initialized : r.0.initialized ≡ true
    pub serving : len ≡ 256 → IsServing (r.0.vring 0)
    pub room : ((r.0.vring 0).desc_addr + 16 * len ≤ (r.0.vring 0).avail_addr) ↔ (len ≤ 256)
    pub entries : (r.0.vring 0).num ≡ len
    pub laid_out : IsLaidOut (r.0.vring 0) 256
    pub told :
        (q : ℕ) × (q * page ≡ a)
        × ((r.0.vring 0).desc_addr ≡ a)
        × (r.1.stores ≡ m.stores ++ blk_stores conf host pci q)
    pub fits : ((r.0.vring 0).avail_addr ≡ (r.0.vring 0).desc_addr + 16 * len) ↔ (len ≡ 256)

  -- If the heap has an element for it and the storage a place for its ring, and the ring's memory was
  -- zero, `init_blk_virtio` ends with a driver whose ring is laid out for 256 entries and takes as many
  -- as the device's queue has, from 4 to 2 ^ 15; the device has been told, in the order of the list, its
  -- window, that no feature is asked for, and the page of the ring. The table has room for the descriptors
  -- of the queue exactly if that has at most 256 entries; the device looks for the available ring
  -- where the driver has it exactly if the queue has 256, and then the ring serves sector operations.
  pub init_blk_virtio-Disks :
      (m : Machine) (driver : VirtioDriver) (conf host pci at a len : ℕ) (memory : Bytes)
      → conf + 20 < 2 ^ 64
      → host + 18 < 2 ^ 64
      → queue_size m conf host pci ≡ len
      → 4 ≤ len
      → len ≤ 2 ^ 15
      → malloc m.arenas m.memory vring_size ≡ some (at, memory)
      → IsValid m.storage 12 (virtq_size 256)
      → m.storage.stop ≤ 2 ^ 44
      → (forever_alloc_aligned m.storage (virtq_size 256) page).0 ≡ some a
      → ((i : ℕ) → i < len → (raw m.storage).avail_ring i ≡ 0)
      → (r : VirtioDriver × Machine) × (init_blk_virtio input raw m driver conf host pci ≡ some r)
        × Disks m conf host pci a len r
  unfolding init_blk_virtio bring_up virtio_device_queue_select virtio_device_queue_desc_write
      virtio_device_set_status pci_device_set_bar pci_device_set_status
      virtio_device_queue_size_read vring_init
  init_blk_virtio-Disks m driver conf host pci at a len memory in_conf in_host size few many got
        valid low given zero =
      let (laid, placed, used, avail, next) =
        vring_init-IsLaidOut (raw m.storage) 256 m.storage a (omega arith) valid given in
      let al = forever_alloc_aligned-Allocates m.storage (virtq_size 256) 52 12 refl valid in
      let (above, end, (q, on_page)) = al.range a given in
      let ends : (vring_init (raw m.storage) 256 m.storage).0.avail_addr ≡ a + 4096 =
        sym laid.descriptors_first ∙ ap (λ x. x + 4096) placed in
      let page_number : w32 ((vring_init (raw m.storage) 256 m.storage).0.desc_addr / 4096) ≡ q =
        rw placed (omega arith) in
      let at0 : w64 (conf + 16) ≡ conf + 16 = omega arith in
      let at1 : w64 (conf + 20) ≡ conf + 20 = omega arith in
      let at2 : w64 (conf + 4) ≡ conf + 4 = omega arith in
      let at3 : w64 (host + 18) ≡ host + 18 = omega arith in
      let at4 : w64 (host + 4) ≡ host + 4 = omega arith in
      let at5 : w64 (host + 14) ≡ host + 14 = omega arith in
      let at6 : w64 (host + 8) ≡ host + 8 = omega arith in
      rw (got, size)
        (
          _,
          refl,
          record {
            initialized = refl;
            serving = λ whole. record {
              ready = record { enough = few; bounded = many; in_table = omega arith };
              slots = zero;
              avail_word = omega arith;
              used_word = omega arith;
            };
            room = (λ e. omega (arith, ends, placed), λ e. omega (arith, ends, placed));
            entries = refl;
            laid_out = record {
              descriptors_first = laid.descriptors_first;
              avail_before_used = laid.avail_before_used;
              used_on_page = laid.used_on_page;
              used_inside = laid.used_inside;
            };
            told = (
              q,
              sym on_page,
              placed,
              simp (append_assoc, at0, at1, at2, at3, at4, at5, at6, page_number),
            );
            fits = (λ e. omega (arith, ends), λ e. omega (arith, ends));
          },
        )
