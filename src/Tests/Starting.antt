-- ===== src/Tests/Starting.antt =====
-- A bus with a disk in its second place and an entropy device in its third, and the starts of their
-- drivers.
use demandos.Prelude.{
  ℕ, ◌+◌, ◌*◌, ◌/◌, ◌%◌, ◌≡◌, ◌↔◌, refl, arith, Bool, true, false, Option, none, some, List, [],
  zeros, ◌==◌, if◌then◌else◌,
}
use demandos.Memory.Align.{align_up}
use demandos.Memory.Arena.{Arenas, store, scan, try_alloc_from, malloc}
use demandos.Memory.Forever.{Forever, forever_alloc_aligned, IsValid}
use demandos.Vring.{Vring}
use demandos.Vring.Layout.{page, virtq_descr_size, virtq_avail_size, virtq_used_size, virtq_size}
use demandos.Drivers.{
  Store, DriverInit, VirtioDriver, Machine, vring_size, virtio_device_queue_size_read,
  init_blk_virtio, run_init, find_virtio_driver, load_drivers, driver_inits,
}
use demandos.Drivers.Disk.{queue_size, Disks, init_blk_virtio-Disks}
use demandos.Pci.{
  Bus, pci_base, host_conf_base, function_step, pci_off, pci_bus, pci_dev, pci_fun,
  pci_config_space_alloc, device_type, start_driver, configure_pci_device, pci_probe, pci_scan_from,
  pci_scan, configure_pci,
}
use demandos.Pci.Address.{configured_at, configured_at_lem}
use demandos.Pci.Scan.{configure_pci-HasWindows}
use demandos.Pci.Windows.{HasWindows}
use demandos.Tests.Sectors.{served_ring}

configured_at_lem_example :
    let off = 5 * function_step in
    (configured_at off ≡ off / 16384 * 16384)
    × ((configured_at off ≡ off) ↔ (off / function_step % 4 ≡ 0))
configured_at_lem_example = configured_at_lem 5 (omega arith)

-- The registers: the vendors, the devices' kinds, and the sizes of their queues.
abbrev registers : List Store → ℕ → ℕ
registers stores a =
    if a == pci_base + 4 * 4096
    then 6900
    else (if a == pci_base + 4 * 4096 + 2
        then 4097
        else (if a == pci_base + 8 * 4096
            then 6900
            else (if a == pci_base + 8 * 4096 + 2
                then 4101
                else (if a == host_conf_base + 12 then 256 else 4))))

abbrev arenas : Arenas
arenas = record {
  arena_start_32 = 100000;
  arena_start_64 = 100330;
  arena_start_128 = 100980;
  arena_start_256 = 102270;
  arena_start_512 = 104840;
  arena_end_512 = 109970;
}

abbrev machine : Machine
machine = record {
  arenas = arenas;
  memory = zeros;
  storage = record { frontier = 70; stop = 50000 };
  stores = [];
  config_base = 0;
}

-- The memory of the rings was zero.
abbrev zeroed : Forever → Vring
zeroed storage = served_ring

abbrev driver_with : Option DriverInit → VirtioDriver
driver_with init = record {
  device_id = 0;
  initialized = false;
  init_f = init;
  host = 0;
  pci = 0;
  conf = 0;
  vring_at = 0;
  vring = λ i. served_ring;
}

size_256 : virtq_size 256 ≡ 12288
unfolding virtq_size virtq_descr_size virtq_avail_size virtq_used_size align_up
size_256 = refl

storage-IsValid : IsValid machine.storage 12 (virtq_size 256)
storage-IsValid = record { inside = omega arith; room_left = omega (arith, size_256) }

given : (forever_alloc_aligned machine.storage (virtq_size 256) page).0 ≡ some 4096
unfolding forever_alloc_aligned align_up
given = rw size_256 refl

got : malloc arenas zeros vring_size ≡ some (100981, store zeros 100980 1)
unfolding malloc try_alloc_from scan
got = refl

sized : queue_size registers zeroed machine (pci_base + 16384) host_conf_base 4096 ≡ 256
unfolding virtio_device_queue_size_read
sized = refl

init_blk_virtio-Disks_example :
    (r : VirtioDriver × Machine) × (init_blk_virtio registers zeroed machine
        (driver_with none)
        (pci_base + 16384)
        host_conf_base
        4096
      ≡ some r)
    × Disks registers zeroed machine (pci_base + 16384) host_conf_base 4096 4096 256 r
init_blk_virtio-Disks_example =
    init_blk_virtio-Disks registers zeroed machine (driver_with none) (pci_base + 16384)
      host_conf_base 4096 100981 4096 256 (store zeros 100980 1) (omega arith) (omega arith) sized
      (omega arith) (omega arith) got storage-IsValid (omega arith) given (λ i h. refl)

-- The bus after the scan.
abbrev after : Option Bus → Bus
after none = record { machine = machine; drivers = λ i. driver_with none }
after (some b) = b

abbrev ends : Option Bus → Bool
ends none = false
ends (some b) = true

after_lem : (o : Option Bus) → ends o ≡ true → o ≡ some (after o)
after_lem none e = cc
after_lem (some b) e = refl

abbrev scanned : Option Bus
scanned =
    configure_pci registers zeroed machine (driver_inits (λ i. served_ring)) (λ i. driver_with none)

scan_ends : ends scanned ≡ true
unfolding configure_pci load_drivers pci_scan pci_scan_from pci_probe configure_pci_device
    start_driver run_init find_virtio_driver device_type pci_config_space_alloc pci_off pci_bus
    pci_dev pci_fun malloc try_alloc_from scan init_blk_virtio
scan_ends = refl

configure_pci-HasWindows_example : HasWindows (after scanned)
configure_pci-HasWindows_example =
    configure_pci-HasWindows registers zeroed machine (λ i. served_ring) (λ i. driver_with none)
      (after scanned) refl (λ i. refl) (after_lem scanned scan_ends)
