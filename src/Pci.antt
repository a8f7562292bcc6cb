-- ===== src/Pci.antt =====
-- src/pci.c and include/pci.h: the scan of the bus, which gives each VIRTIO device that it finds a
-- window for its registers and starts its driver.
pub mod Address
pub mod Windows
pub mod Scan
pub mod Serving
use demandos.Prelude.{
  ℕ, zero, suc, ◌+◌, ◌-◌, ◌*◌, ◌/◌, ◌%◌, ◌^◌, Bool, Option, none, some, List, ltb, ◌==◌, ◌>>=◌,
  if◌then◌else◌, bit_and, bit_or, w16, w32, w64,
}
use demandos.Memory.Forever.{Forever}
use demandos.Vring.{Vring}
use demandos.Drivers.{
  Store, DriverInit, VirtioDriver, Machine, max_virtio_device_id, find_virtio_driver, load_drivers,
  run_init,
}

-- PCI_OFF on ints; PCI_BUS, PCI_DEV and PCI_FUN on a uint32_t, whose masks are ~19, ~14 and ~11.
unfoldable pub pci_off : ℕ → ℕ → ℕ → ℕ
pci_off bus dev fun = bit_or (bit_or (bus * 2 ^ 20) (dev * 2 ^ 15)) (fun * 2 ^ 12)

unfoldable pub pci_bus : ℕ → ℕ
pci_bus off = off / 2 ^ 20 % 256

unfoldable pub pci_dev : ℕ → ℕ
pci_dev off = bit_and (off / 2 ^ 15) (2 ^ 32 - 1 - 14) % 256

unfoldable pub pci_fun : ℕ → ℕ
pci_fun off = bit_and (off / 2 ^ 12) (2 ^ 32 - 1 - 11) % 256

-- PCI_BASE, MAX_PCI_OFF, HOST_CONF_BASE, PCI_CONF_BASE
abbrev pub pci_base : ℕ
pci_base = 805306368

abbrev pub max_pci_off : ℕ
max_pci_off = 3178496

abbrev pub host_conf_base : ℕ
host_conf_base = 50335744

abbrev pub pci_conf_base : ℕ
pci_conf_base = 4096

-- The size of a window, and the distance of two functions on the bus, PCI_OFF(0, 0, 1).
abbrev pub window : ℕ
window = 4096

abbrev pub function_step : ℕ
function_step = 4096

-- The vendor of VIRTIO devices.
abbrev pub virtio_vendor : ℕ
virtio_vendor = 6900

-- The machine, and the drivers that are loaded.
pub record Bus : Type 0 where
  pub machine : Machine
  pub drivers : ℕ → VirtioDriver

unfoldable pub pci_config_space_alloc : Machine → ℕ × Machine
pci_config_space_alloc m = (m.config_base, record m { config_base = w32 (m.config_base + window) })

-- The type of a VIRTIO device from its PCI device id, on a uint16_t.
unfoldable pub device_type : ℕ → ℕ
device_type device_id =
    if ltb 4105 device_id
    then w16 (device_id + (2 ^ 16 - 4160))
    else w16 (device_id + (2 ^ 16 - 4096))

module _ (input : List Store → ℕ → ℕ) (raw : Forever → Vring) where
  -- The driver in a place of the array, started. A place behind the array and a call through NULL are
  -- `none`.
  unfoldable pub start_driver : Bus → ℕ → ℕ → ℕ → ℕ → Option Bus
  unfolding run_init
  start_driver b place conf host pci =
      let driver = b.drivers place in
      let started : Option Bus = elim driver.init_f [
        | none ↦ none
        | some f ↦ run_init input raw f b.machine driver conf host pci >>= λ r.
            some (record { machine = r.1; drivers = λ i. if i == place then r.0 else b.drivers i })
      ] in
      if ltb place max_virtio_device_id then started else none

  unfoldable pub configure_pci_device : Bus → ℕ → ℕ → ℕ → ℕ → ℕ → ℕ → Option Bus
  unfolding pci_off device_type find_virtio_driver start_driver
  configure_pci_device b bus_base bus dev fun host pci =
      let conf = bus_base + pci_off bus dev fun in
      let device_id = w16 (input b.machine.stores (w64 (conf + 2))) in
      find_virtio_driver (device_type device_id) >>= λ place. start_driver b place conf host pci

  -- What the loop does at one offset.
  unfoldable pub pci_probe : Bus → ℕ → Option Bus
  unfolding pci_bus pci_dev pci_fun pci_config_space_alloc configure_pci_device
  pci_probe b i =
      let vendor_id = w16 (input b.machine.stores (pci_base + i)) in
      let (allocd, machine) = pci_config_space_alloc b.machine in
      let configured =
        configure_pci_device (record b { machine = machine }) pci_base (pci_bus i) (pci_dev i)
          (pci_fun i) (host_conf_base + allocd) (w32 (pci_conf_base + allocd)) in
      if vendor_id == virtio_vendor then configured else some b

  -- The loop of `pci_scan` for so many rounds from offset `i` on. It goes around max_pci_off /
  -- function_step times.
  unfoldable pub pci_scan_from : ℕ → Bus → ℕ → Option Bus
  unfolding pci_probe
  pci_scan_from zero b i = some b
  pci_scan_from (suc rounds) b i =
      pci_probe b i >>= λ b'. pci_scan_from rounds b' (i + function_step)

  unfoldable pub pci_scan : Bus → Option Bus
  unfolding pci_scan_from
  pci_scan b = pci_scan_from (max_pci_off / function_step) b 0

  -- Drivers are loaded over an array of zeros.
  unfoldable pub configure_pci : Machine → List VirtioDriver → (ℕ → VirtioDriver) → Option Bus
  unfolding load_drivers pci_scan
  configure_pci m declared blank =
      pci_scan (record { machine = m; drivers = load_drivers declared blank })
