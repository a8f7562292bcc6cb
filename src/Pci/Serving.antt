-- ===== src/Pci/Serving.antt =====
-- The rings that the drivers have after the scan of the bus.
use demandos.Prelude.{ℕ, ◌*◌, ◌≡◌, true}
use demandos.Memory.Forever.{Forever}
use demandos.Vring.{Vring}
use demandos.Drivers.{VirtioDriver}
use demandos.Drivers.Rings.{HasRoom, HasRing, HasRings}
use demandos.Pci.{Bus, window}

-- After `k` windows: each driver that is started has its rings, and the calls are those of `loaded`.
record HasGiven (loaded : ℕ → VirtioDriver) (k : ℕ) (b : Bus) : Type 0 where
  pub at_next : b.machine.config_base ≡ k * window
  pub rings : (i : ℕ) → HasRings (b.drivers i) b.machine.stores
  pub room : HasRoom b.machine.storage
  pub same : (i : ℕ) → (b.drivers i).init_f ≡ (loaded i).init_f

-- The number of offsets, and of the windows that may be given out.
abbrev pub offsets : ℕ
offsets = 776

-- The j-th ring of the driver in a place, once that is started.
abbrev pub HasStarted : Bus → ℕ → ℕ → ℕ → Type 0
HasStarted b i j qsz =
    (b.drivers i).initialized ≡ true
    → HasRing (b.drivers i).host b.machine.stores qsz ((b.drivers i).vring j)
