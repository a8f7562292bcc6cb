-- ===== src/Pci/Scan.antt =====
-- The windows that the scan of the bus gives to the devices' registers.
use demandos.Prelude.{
  ℕ, zero, suc, ◌+◌, ◌*◌, ◌/◌, ◌^◌, ◌≤◌, ◌≡◌, refl, ap, ◌∙◌, subst, arith, inl, inr, false, some,
  List, [], ◌∷◌, Bool-cases, Option-cases, ltb, ◌==◌, w16, w32, w64,
}
use mathlib.Core.Option.{some-injective}
use demandos.Memory.Forever.{Forever}
use demandos.Vring.{Vring}
use demandos.Drivers.{
  Store, DriverInit, VirtioDriver, Machine, max_virtio_device_id, find_virtio_driver, run_init,
  load_drivers, driver_inits,
}
use demandos.Drivers.Start.{run_init-Starts}
use demandos.Pci.{
  Bus, host_conf_base, pci_conf_base, window, function_step, pci_base, max_pci_off, virtio_vendor,
  pci_config_space_alloc, device_type, start_driver, configure_pci_device, pci_probe, pci_scan_from,
  pci_scan, configure_pci, pci_off, pci_bus, pci_dev, pci_fun,
}
use demandos.Pci.Windows.{HasWindows, placed_in, placed_in-HasWindows}

-- No driver of the list is started.
abbrev AllFresh : List VirtioDriver → Type 0
AllFresh [] = Unit {0}
AllFresh (driver ∷ rest) = (driver.initialized ≡ false) × AllFresh rest

module _ (input : List Store → ℕ → ℕ) (raw : Forever → Vring) where
  -- A start that ends has called a driver's `init_f`.
  pub record Ran (b : Bus) (place conf host pci : ℕ) (b' : Bus) : Type 0 where
    pub init : DriverInit
    pub result : VirtioDriver × Machine
    pub own : (b.drivers place).init_f ≡ some init
    pub ran : run_init input raw init b.machine (b.drivers place) conf host pci ≡ some result
    pub left : placed_in b place result ≡ b'

  start_driver-Ran :
      (b b' : Bus) (place conf host pci : ℕ)
      → start_driver input raw b place conf host pci ≡ some b'
      → Ran b place conf host pci b'
  unfolding start_driver
  start_driver-Ran b b' place conf host pci = elim (Bool-cases (ltb place max_virtio_device_id)) [
    | inr outside ↦ rw outside (λ e. cc)
    | inl inside ↦ rw inside (elim (Option-cases (b.drivers place).init_f) [
      | inl null ↦ rw null (λ e. cc)
      | inr (f, is) ↦
          rw is
            (elim (Option-cases (run_init input raw f b.machine (b.drivers place) conf host pci)) [
              | inl off ↦ rw off (λ e. cc)
              | inr (r, started) ↦ rw started (λ e. record {
                init = f;
                result = r;
                own = is;
                ran = started;
                left = some-injective _ b' e;
              })
            ])
    ])
  ]

  pub configure_pci_device-Ran :
      (b b' : Bus) (base bus dev fun host pci : ℕ)
      → configure_pci_device input raw b base bus dev fun host pci ≡ some b'
      → (place : ℕ) × Ran b place (base + pci_off bus dev fun) host pci b'
  unfolding configure_pci_device
  configure_pci_device-Ran b b' base bus dev fun host pci =
      let conf = base + pci_off bus dev fun in
      let type = device_type (w16 (input b.machine.stores (w64 (conf + 2)))) in
      elim (Option-cases (find_virtio_driver type)) [
        | inl unknown ↦ rw unknown (λ e. cc)
        | inr (place, found) ↦ rw found (λ e. (place, start_driver-Ran b b' place conf host pci e))
      ]

  -- One probe of a bus whose windows are far from the end of the 32 bits keeps them apart.
  pci_probe-HasWindows :
      (b b' : Bus) (i : ℕ)
      → HasWindows b
      → b.machine.config_base + 2 * window ≤ 2 ^ 32
      → pci_probe input raw b i ≡ some b'
      → HasWindows b' × (b'.machine.config_base ≤ b.machine.config_base + window)
  unfolding pci_probe pci_config_space_alloc configure_pci_device
  pci_probe-HasWindows b b' i v low =
      let next_base : w32 (b.machine.config_base + window) ≡ b.machine.config_base + window =
        omega arith in
      let pci_window : w32 (pci_conf_base + b.machine.config_base)
          ≡ pci_conf_base + b.machine.config_base =
        omega arith in
      elim (Bool-cases (w16 (input b.machine.stores (pci_base + i)) == virtio_vendor)) [
        | inr other ↦ rw other (λ e.
            subst (λ x. HasWindows x × (x.machine.config_base ≤ b.machine.config_base + window))
              (some-injective _ b' e) (v, omega arith))
        | inl virtio ↦ rw virtio (λ e.
            let (place, run) =
              configure_pci_device-Ran _ b' pci_base (pci_bus i) (pci_dev i) (pci_fun i) _ _ e in
            let starts = run_init-Starts input raw run.init _ _ _ _ _ run.result run.ran in
            subst (λ x. HasWindows x × (x.machine.config_base ≤ b.machine.config_base + window))
              run.left
              (
                placed_in-HasWindows b place
                    (pci_base + pci_off (pci_bus i) (pci_dev i) (pci_fun i)) run.result v
                    (record {
                      initialized = starts.initialized;
                      at_host = starts.at_host ∙ ap (λ a. host_conf_base + a) v.at_next;
                      at_pci = starts.at_pci ∙ pci_window ∙ ap (λ a. pci_conf_base + a) v.at_next;
                      at_conf = starts.at_conf;
                      same_base = starts.same_base ∙ next_base;
                    }),
                omega (arith, starts.same_base, next_base),
              ))
      ]

  pci_scan_from-HasWindows :
      (rounds : ℕ) (b b' : Bus) (i : ℕ)
      → HasWindows b
      → b.machine.config_base + rounds * window + window ≤ 2 ^ 32
      → pci_scan_from input raw rounds b i ≡ some b'
      → HasWindows b'
  unfolding pci_scan_from
  pci_scan_from-HasWindows zero b b' i v low = λ e. subst HasWindows (some-injective b b' e) v
  pci_scan_from-HasWindows (suc rounds) b b' i v low =
      elim (Option-cases (pci_probe input raw b i)) [
        | inl off ↦ rw off (λ e. cc)
        | inr (c, probed) ↦ rw probed (λ e.
            let (w, rise) = pci_probe-HasWindows b c i v (omega arith) probed in
            pci_scan_from-HasWindows rounds c b' (i + function_step) w (omega arith) e)
      ]

  pci_scan-HasWindows :
      (b b' : Bus)
      → b.machine.config_base ≡ 0
      → ((i : ℕ) → (b.drivers i).initialized ≡ false)
      → pci_scan input raw b ≡ some b'
      → HasWindows b'
  unfolding pci_scan
  pci_scan-HasWindows b b' base fresh =
      pci_scan_from-HasWindows (max_pci_off / function_step) b b' 0
        (record {
          next_window = 0;
          at_next = base;
          below = λ i e. cc (fresh i);
          apart = λ i j d e f. cc (fresh i);
        })
        (omega arith)

  -- The drivers that are loaded are not started.
  pub load_drivers-fresh :
      (declared : List VirtioDriver) (drivers : ℕ → VirtioDriver)
      → AllFresh declared
      → ((i : ℕ) → (drivers i).initialized ≡ false)
      → (i : ℕ) → (load_drivers declared drivers i).initialized ≡ false
  unfolding load_drivers
  load_drivers-fresh [] drivers all fresh = fresh
  load_drivers-fresh (driver ∷ rest) drivers all fresh = load_drivers-fresh rest _ all.1 (λ i.
      elim (Bool-cases (ltb driver.device_id max_virtio_device_id)) [
        | inr refused ↦ rw refused (fresh i)
        | inl loaded ↦ rw loaded (elim (Bool-cases (i == driver.device_id)) [
          | inl own ↦ rw own all.0
          | inr other ↦ rw other (fresh i)
        ])
      ])

  -- However many devices the bus has and whatever they are, when `configure_pci` ends, started with no
  -- window given out and with the drivers that are declared, each driver that is started has the same
  -- window for the kernel and for the bus, and no two have windows that overlap.
  pub configure_pci-HasWindows :
      (m : Machine) (rings : ℕ → Vring) (blank : ℕ → VirtioDriver) (b : Bus)
      → m.config_base ≡ 0
      → ((i : ℕ) → (blank i).initialized ≡ false)
      → configure_pci input raw m (driver_inits rings) blank ≡ some b
      → HasWindows b
  unfolding configure_pci
  configure_pci-HasWindows m rings blank b base fresh =
      pci_scan-HasWindows
        (record { machine = m; drivers = load_drivers (driver_inits rings) blank }) b base
        (load_drivers-fresh (driver_inits rings) blank (refl, (refl, (refl, tt))) fresh)
