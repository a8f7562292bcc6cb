-- ===== src/Drivers.antt =====
-- src/virtio_driver.c, the registers of src/virtio.c and those of src/pci.c: how a device is brought
-- up. A store to a register is recorded; what a register reads as is an argument.
pub mod Start
pub mod Rings
pub mod Serving
pub mod Disk
use demandos.Prelude.{
  ℕ, ◌+◌, ◌-◌, ◌*◌, ◌/◌, ◌^◌, Bytes, Bool, true, false, Option, none, some, List, [], ◌∷◌, ◌++◌,
  ltb, ◌||◌, ◌==◌, ◌>>=◌, if◌then◌else◌, w16, w32, w64,
}
use demandos.Memory.Arena.{Arenas, malloc}
use demandos.Memory.Forever.{Forever}
use demandos.Vring.{Vring}
use demandos.Vring.Layout.{vring_init}

-- A store of so many bytes to a register.
pub record Store : Type 0 where
  pub address : ℕ
  pub bytes : ℕ
  pub value : ℕ

-- The functions that a driver's `init_f` points to.
pub data DriverInit : Type 0 where
  init_entropy_virtio_f init_blk_virtio_f init_console_virtio_f : DriverInit

-- struct virtio_driver; `vring` is the array that the pointer of that name points to.
pub record VirtioDriver : Type 0 where
  pub device_id : ℕ
  pub initialized : Bool
  pub init_f : Option DriverInit
  pub host : ℕ
  pub pci : ℕ
  pub conf : ℕ
  pub vring_at : ℕ
  pub vring : ℕ → Vring

-- What the kernel allocates from, what it has stored in registers, and the address of the next window
-- for a device's registers.
pub record Machine : Type 0 where
  pub arenas : Arenas
  pub memory : Bytes
  pub storage : Forever
  pub stores : List Store
  pub config_base : ℕ

-- MAX_VIRTIO_DEVICE_ID
abbrev pub max_virtio_device_id : ℕ
max_virtio_device_id = 10

-- sizeof(struct vring)
abbrev pub vring_size : ℕ
vring_size = 64

-- The place in the array; `none` is NULL. The last place that passes the test, 10, lies behind it.
unfoldable pub find_virtio_driver : ℕ → Option ℕ
find_virtio_driver type = if type == 0 || ltb 10 type then none else some type

-- The loop over the section of declared drivers.
unfoldable pub load_drivers : List VirtioDriver → (ℕ → VirtioDriver) → ℕ → VirtioDriver
load_drivers [] drivers = drivers
load_drivers (driver ∷ rest) drivers = load_drivers rest (
    if ltb driver.device_id max_virtio_device_id
    then (λ i. if i == driver.device_id then driver else drivers i)
    else drivers)

-- A driver as DECLARE_DRIVER gives it, zero but for what is named; `rings` is what lies behind NULL.
abbrev pub declared : (ℕ → Vring) → ℕ → DriverInit → VirtioDriver
declared rings id init = record {
  device_id = id;
  initialized = false;
  init_f = some init;
  host = 0;
  pci = 0;
  conf = 0;
  vring_at = 0;
  vring = rings;
}

-- The drivers that are declared: random, console, blk.
abbrev pub driver_inits : (ℕ → Vring) → List VirtioDriver
driver_inits rings =
    declared rings 5 init_entropy_virtio_f
    ∷ declared rings 3 init_console_virtio_f
    ∷ declared rings 1 init_blk_virtio_f
    ∷ []

abbrev pub output : Machine → ℕ → ℕ → ℕ → Machine
output m address bytes value = record m {
  stores = m.stores ++ (record { address = w64 address; bytes = bytes; value = value } ∷ []);
}

unfoldable pub pci_device_set_bar : Machine → ℕ → ℕ → ℕ → Machine
pci_device_set_bar m pci_cfg which value = output m (pci_cfg + (16 + which * 4)) 4 value

-- The status that is passed is not used.
unfoldable pub pci_device_set_status : Machine → ℕ → ℕ → Machine
pci_device_set_status m pci_cfg status = output m (pci_cfg + 4) 1 7

unfoldable pub virtio_device_set_status : Machine → ℕ → ℕ → Machine
virtio_device_set_status m host status = output m (host + 18) 1 status

unfoldable pub virtio_device_queue_select : Machine → ℕ → ℕ → Machine
virtio_device_queue_select m host q = output m (host + 14) 2 q

-- The page number of the address, as a uint32_t.
unfoldable pub virtio_device_queue_desc_write : Machine → ℕ → ℕ → Machine
virtio_device_queue_desc_write m host descr = output m (host + 8) 4 (w32 (descr / 4096))

unfoldable pub signal_virtio_device : Machine → VirtioDriver → ℕ → Machine
signal_virtio_device m driver signal = output m (driver.host + 16) 2 signal

-- The two base address registers, the command register, and the first status: what each driver begins
-- with.
unfoldable pub bring_up : Machine → ℕ → ℕ → ℕ → Machine
unfolding pci_device_set_bar pci_device_set_status virtio_device_set_status
bring_up m conf host pci =
    let m1 = pci_device_set_bar m conf 0 pci in
    let m2 = pci_device_set_bar m1 conf 1 (2 ^ 32 - 1) in
    let m3 = pci_device_set_status m2 conf 7 in virtio_device_set_status m3 host 1

-- `input stores a` is what a 16-bit load from a register reads as after the stores so far.
unfoldable pub virtio_device_queue_size_read : (List Store → ℕ → ℕ) → Machine → ℕ → ℕ
virtio_device_queue_size_read input m host = w16 (input m.stores (w64 (host + 12)))

-- `raw` is what the memory holds that the storage gives out next.
module _ (input : List Store → ℕ → ℕ) (raw : Forever → Vring) where
  -- `none` is the power-off of `malloc`.
  unfoldable pub init_entropy_virtio :
      Machine → VirtioDriver → ℕ → ℕ → ℕ → Option (VirtioDriver × Machine)
  unfolding bring_up virtio_device_queue_select virtio_device_queue_size_read
      virtio_device_queue_desc_write virtio_device_set_status
  init_entropy_virtio m driver conf host pci = do
    let m1 = virtio_device_queue_select (bring_up m conf host pci) host 0
    let len = virtio_device_queue_size_read input m1 host
    (at, memory) ← malloc m1.arenas m1.memory vring_size
    let (v, storage) = vring_init (raw m1.storage) len m1.storage
    let m2 = record m1 { memory = memory; storage = storage }
    let m3 = virtio_device_queue_desc_write m2 host v.desc_addr
    some (
      record driver {
        initialized = true;
        host = host;
        pci = pci;
        conf = conf;
        vring_at = at;
        vring = λ i. if i == 0 then record v { num = len } else driver.vring i;
      },
      virtio_device_set_status m3 host 6,
    )

  -- The features that the device has are read and not used, and none is asked for. The ring has 256
  -- entries, whatever the size of the queue.
  unfoldable pub init_blk_virtio :
      Machine → VirtioDriver → ℕ → ℕ → ℕ → Option (VirtioDriver × Machine)
  unfolding bring_up virtio_device_queue_select virtio_device_queue_size_read
      virtio_device_queue_desc_write virtio_device_set_status
  init_blk_virtio m driver conf host pci = do
    let asked = output (bring_up m conf host pci) (host + 4) 4 0
    let m1 = virtio_device_queue_select asked host 0
    let len = virtio_device_queue_size_read input m1 host
    (at, memory) ← malloc m1.arenas m1.memory vring_size
    let (v, storage) = vring_init (raw m1.storage) 256 m1.storage
    let m2 = record m1 { memory = memory; storage = storage }
    let m3 = virtio_device_queue_desc_write m2 host v.desc_addr
    some (
      record driver {
        initialized = true;
        host = host;
        pci = pci;
        conf = conf;
        vring_at = at;
        vring = λ i. if i == 0 then record v { num = len } else driver.vring i;
      },
      virtio_device_set_status m3 host 6,
    )

  -- Both rings have the size of the first queue; that of the second is read and not used.
  unfoldable pub init_console_virtio :
      Machine → VirtioDriver → ℕ → ℕ → ℕ → Option (VirtioDriver × Machine)
  unfolding bring_up virtio_device_queue_select virtio_device_queue_size_read
      virtio_device_queue_desc_write virtio_device_set_status
  init_console_virtio m driver conf host pci = do
    let m1 = virtio_device_queue_select (bring_up m conf host pci) host 0
    let len = virtio_device_queue_size_read input m1 host
    (at, memory) ← malloc m1.arenas m1.memory (2 * vring_size)
    let (v, storage) = vring_init (raw m1.storage) len m1.storage
    let (w, storage') = vring_init (raw storage) len storage
    let m2 = record m1 { memory = memory; storage = storage' }
    let m3 = virtio_device_queue_desc_write m2 host v.desc_addr
    let m4 = virtio_device_queue_select m3 host 1
    let m5 = virtio_device_queue_desc_write m4 host w.desc_addr
    some (
      record driver {
        initialized = true;
        host = host;
        pci = pci;
        conf = conf;
        vring_at = at;
        vring = λ i.
            if i == 0
            then record v { num = len }
            else if i == 1
            then record w { num = len }
            else driver.vring i;
      },
      virtio_device_set_status m5 host 6,
    )

  -- The call of `init_f`.
  unfoldable pub run_init :
      DriverInit → Machine → VirtioDriver → ℕ → ℕ → ℕ → Option (VirtioDriver × Machine)
  unfolding init_entropy_virtio init_blk_virtio init_console_virtio
  run_init init_entropy_virtio_f = init_entropy_virtio
  run_init init_blk_virtio_f = init_blk_virtio
  run_init init_console_virtio_f = init_console_virtio
