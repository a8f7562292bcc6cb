-- ===== src/Pci/Windows.antt =====
-- Windows of registers that do not overlap, and the next one for src/pci.c to give out.
use demandos.Prelude.{
  ℕ, ◌+◌, ◌*◌, ◌<◌, ◌≡◌, ◌≢◌, arith, inl, inr, true, Bool-cases, Apart, ◌==◌, ==_iff, if◌then◌else◌,
}
use demandos.Drivers.{VirtioDriver, Machine}
use demandos.Drivers.Start.{Starts}
use demandos.Pci.{Bus, host_conf_base, pci_conf_base, window}

-- The registers of a driver are the window number `k`, as the kernel and as the bus address it.
pub record IsAt (driver : VirtioDriver) (k : ℕ) : Type 0 where
  pub host_window : driver.host ≡ host_conf_base + k * window
  pub pci_window : driver.pci ≡ pci_conf_base + k * window

-- Each driver that is started has a window below the next one to be given out, which no other has.
pub record HasWindows (b : Bus) : Type 0 where
  pub next_window : ℕ
  pub at_next : b.machine.config_base ≡ next_window * window
  pub below :
      (i : ℕ)
      → (b.drivers i).initialized ≡ true
      → (k : ℕ) × (k < next_window) × IsAt (b.drivers i) k
  pub apart :
      (i j : ℕ)
      → i ≢ j
      → (b.drivers i).initialized ≡ true
      → (b.drivers j).initialized ≡ true
      → Apart (b.drivers i).host window (b.drivers j).host window

-- The bus with a driver in a place.
abbrev pub placed_in : Bus → ℕ → VirtioDriver × Machine → Bus
placed_in b place r = record {
  machine = r.1;
  drivers = λ i. if i == place then r.0 else b.drivers i;
}

-- A start in the window that is next, for a bus whose windows lie below it.
pub placed_in-HasWindows :
    (b : Bus) (place conf : ℕ) (r : VirtioDriver × Machine) (v : HasWindows b)
    → Starts
        (record (b.machine) { config_base = b.machine.config_base + window })
        conf
        (host_conf_base + v.next_window * window)
        (pci_conf_base + v.next_window * window)
        r
    → HasWindows (placed_in b place r)
placed_in-HasWindows b place conf r v s = record {
  next_window = v.next_window + 1;
  at_next = omega (arith, s.same_base, v.at_next);
  below = λ i. elim (Bool-cases (i == place)) [
    | inl here ↦ rw here (λ e.
        (v.next_window, omega arith, record { host_window = s.at_host; pci_window = s.at_pci }))
    | inr other ↦ rw other (λ e. let (k, low, at) = v.below i e in (k, omega arith, at))
  ];
  apart = λ i j d. elim (Bool-cases (i == place)) [
    | inl here ↦ elim (Bool-cases (j == place)) [
      | inl both ↦ λ e f. grind (arith, ==_iff i place, ==_iff j place)
      | inr other ↦
          rw (here, other)
            (λ e f.
              let (k, low, at) = v.below j f in inr (omega (arith, at.host_window, s.at_host)))
    ]
    | inr there ↦ elim (Bool-cases (j == place)) [
      | inl here ↦
          rw (there, here)
            (λ e f.
              let (k, low, at) = v.below i e in inl (omega (arith, at.host_window, s.at_host)))
      | inr other ↦ rw (there, other) (v.apart i j d)
    ]
  ];
}
