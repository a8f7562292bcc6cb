-- ===== src/Drivers/Start.antt =====
-- What the three `init_f` of src/virtio_driver.c have in common.
use demandos.Prelude.{ℕ, ◌*◌, ◌≡◌, refl, subst, inl, inr, true, some, List, Option-cases}
use mathlib.Core.Option.{some-injective}
use demandos.Memory.Arena.{malloc}
use demandos.Memory.Forever.{Forever}
use demandos.Vring.{Vring}
use demandos.Drivers.{
  Store, DriverInit, init_entropy_virtio_f, init_blk_virtio_f, init_console_virtio_f, VirtioDriver,
  Machine, vring_size, pci_device_set_bar, pci_device_set_status, virtio_device_set_status,
  virtio_device_queue_select, virtio_device_queue_desc_write, bring_up, init_entropy_virtio,
  init_blk_virtio, init_console_virtio, run_init,
}

-- What every `init_f` does to its driver, whatever else.
pub record Starts (m : Machine) (conf host pci : ℕ) (r : VirtioDriver × Machine) : Type 0 where
  pub initialized : r.0.initialized ≡ true
  pub at_host : r.0.host ≡ host
  pub at_pci : r.0.pci ≡ pci
  pub at_conf : r.0.conf ≡ conf
  pub same_base : r.1.config_base ≡ m.config_base

started :
    (m m' : Machine) (driver : VirtioDriver) (conf host pci at : ℕ) (rings : ℕ → Vring)
    → m'.config_base ≡ m.config_base
    → Starts m conf host pci (
      record driver {
        initialized = true;
        host = host;
        pci = pci;
        conf = conf;
        vring_at = at;
        vring = rings;
      },
      m',
    )
started m m' driver conf host pci at rings e = record {
  initialized = refl;
  at_host = refl;
  at_pci = refl;
  at_conf = refl;
  same_base = e;
}

module _ (input : List Store → ℕ → ℕ) (raw : Forever → Vring) where
  init_entropy-Starts :
      (m : Machine) (driver : VirtioDriver) (conf host pci : ℕ) (r : VirtioDriver × Machine)
      → init_entropy_virtio input raw m driver conf host pci ≡ some r
      → Starts m conf host pci r
  unfolding init_entropy_virtio bring_up virtio_device_queue_select virtio_device_queue_desc_write
      virtio_device_set_status pci_device_set_bar pci_device_set_status
  init_entropy-Starts m driver conf host pci r =
      elim (Option-cases (malloc m.arenas m.memory vring_size)) [
        | inl full ↦ rw full (λ e. cc)
        | inr (p, got) ↦ rw got (λ e.
            subst (Starts m conf host pci) (some-injective _ r e)
              (started m _ driver conf host pci _ _ refl))
      ]

  init_blk-Starts :
      (m : Machine) (driver : VirtioDriver) (conf host pci : ℕ) (r : VirtioDriver × Machine)
      → init_blk_virtio input raw m driver conf host pci ≡ some r
      → Starts m conf host pci r
  unfolding init_blk_virtio bring_up virtio_device_queue_select virtio_device_queue_desc_write
      virtio_device_set_status pci_device_set_bar pci_device_set_status
  init_blk-Starts m driver conf host pci r =
      elim (Option-cases (malloc m.arenas m.memory vring_size)) [
        | inl full ↦ rw full (λ e. cc)
        | inr (p, got) ↦ rw got (λ e.
            subst (Starts m conf host pci) (some-injective _ r e)
              (started m _ driver conf host pci _ _ refl))
      ]

  init_console-Starts :
      (m : Machine) (driver : VirtioDriver) (conf host pci : ℕ) (r : VirtioDriver × Machine)
      → init_console_virtio input raw m driver conf host pci ≡ some r
      → Starts m conf host pci r
  unfolding init_console_virtio bring_up virtio_device_queue_select virtio_device_queue_desc_write
      virtio_device_set_status pci_device_set_bar pci_device_set_status
  init_console-Starts m driver conf host pci r =
      elim (Option-cases (malloc m.arenas m.memory (2 * vring_size))) [
        | inl full ↦ rw full (λ e. cc)
        | inr (p, got) ↦ rw got (λ e.
            subst (Starts m conf host pci) (some-injective _ r e)
              (started m _ driver conf host pci _ _ refl))
      ]

  pub run_init-Starts :
      (f : DriverInit) (m : Machine) (driver : VirtioDriver) (conf host pci : ℕ)
      (r : VirtioDriver × Machine)
      → run_init input raw f m driver conf host pci ≡ some r
      → Starts m conf host pci r
  unfolding run_init
  run_init-Starts init_entropy_virtio_f = init_entropy-Starts
  run_init-Starts init_blk_virtio_f = init_blk-Starts
  run_init-Starts init_console_virtio_f = init_console-Starts
