-- ===== src/Drivers/Serving.antt =====
-- The rings that the drivers are started with.
use demandos.Prelude.{
  ℕ, ◌+◌, ◌*◌, ◌^◌, ◌≤◌, ◌≡◌, refl, subst, arith, inl, inr, some, List, Option-cases, w16, w64,
}
use mathlib.Core.Option.{some-injective}
use demandos.Memory.Arena.{malloc}
use demandos.Memory.Forever.{Forever}
use demandos.Vring.{Vring}
use demandos.Drivers.{
  Store, DriverInit, init_entropy_virtio_f, init_blk_virtio_f, init_console_virtio_f, VirtioDriver,
  Machine, vring_size, virtio_device_queue_size_read, init_entropy_virtio, init_blk_virtio,
  init_console_virtio, run_init, bring_up, virtio_device_queue_select,
  virtio_device_queue_desc_write, virtio_device_set_status, pci_device_set_bar,
  pci_device_set_status,
}
use demandos.Drivers.Rings.{
  Grows, one_more, written_last, written_earlier, same_stores, laid_for, HasRoom,
  vring_init-HasRoom, fresh-HasRing, HasRings,
}

-- Whatever has been stored, the queue's size reads as one that the driver can use.
abbrev pub IsSized : (List Store → ℕ → ℕ) → ℕ → Type 0
IsSized input host =
    (stores : List Store)
    → (4 ≤ w16 (input stores (w64 (host + 12)))) × (w16 (input stores (w64 (host + 12))) ≤ 2 ^ 15)

-- The memory of a ring is zero when it is given out.
abbrev pub IsBlank : (Forever → Vring) → Type 0
IsBlank raw = (storage : Forever) (i : ℕ) → (raw storage).avail_ring i ≡ 0

module _ (input : List Store → ℕ → ℕ) (raw : Forever → Vring) where
  pub record Leaves (m : Machine) (driver : VirtioDriver) (r : VirtioDriver × Machine)
      : Type 0 where
    pub rings : HasRings r.0 r.1.stores
    pub same : r.0.init_f ≡ driver.init_f
    pub grows : Grows m.stores r.1.stores
    pub room_left : HasRoom r.1.storage

  module _ (blank : IsBlank raw) (m : Machine) (room : HasRoom m.storage) (driver : VirtioDriver)
      (conf host pci : ℕ) (sized : IsSized input host) (r : VirtioDriver × Machine) where
    init_entropy-HasRings :
        driver.init_f ≡ some init_entropy_virtio_f
        → init_entropy_virtio input raw m driver conf host pci ≡ some r
        → Leaves m driver r
    unfolding init_entropy_virtio virtio_device_queue_size_read bring_up virtio_device_queue_select
        virtio_device_queue_desc_write virtio_device_set_status pci_device_set_bar
        pci_device_set_status laid_for
    init_entropy-HasRings own = elim (Option-cases (malloc m.arenas m.memory vring_size)) [
      | inl full ↦ rw full (λ e. cc)
      | inr (p, got) ↦ rw got (λ e. subst (Leaves m driver) (some-injective _ r e) (record {
        rings = record {
          first = λ on. rw own (
              fresh-HasRing _ _ _ m.storage host _ (blank m.storage) room (sized _).1 (sized _)
                (written_earlier _ _ _ _ (written_last _ _ _)));
          second = λ on f. cc;
        };
        same = refl;
        grows = one_more _ _ _ (
            one_more _ _ _ (
              one_more _ _ _ (
                one_more _ _ _
                  (one_more _ _ _ (one_more _ _ _ (one_more _ _ _ (same_stores m.stores)))))));
        room_left = vring_init-HasRoom (raw m.storage) _ m.storage room;
      }))
    ]

    init_blk-HasRings :
        driver.init_f ≡ some init_blk_virtio_f
        → init_blk_virtio input raw m driver conf host pci ≡ some r
        → Leaves m driver r
    unfolding init_blk_virtio virtio_device_queue_size_read bring_up virtio_device_queue_select
        virtio_device_queue_desc_write virtio_device_set_status pci_device_set_bar
        pci_device_set_status laid_for
    init_blk-HasRings own = elim (Option-cases (malloc m.arenas m.memory vring_size)) [
      | inl full ↦ rw full (λ e. cc)
      | inr (p, got) ↦ rw got (λ e. subst (Leaves m driver) (some-injective _ r e) (record {
        rings = record {
          first = λ on. rw own (
              fresh-HasRing _ _ _ m.storage host _ (blank m.storage) room (omega arith) (sized _)
                (written_earlier _ _ _ _ (written_last _ _ _)));
          second = λ on f. cc;
        };
        same = refl;
        grows = one_more _ _ _ (
            one_more _ _ _ (
              one_more _ _ _ (
                one_more _ _ _ (
                  one_more _ _ _
                    (one_more _ _ _ (one_more _ _ _ (one_more _ _ _ (same_stores m.stores))))))));
        room_left = vring_init-HasRoom (raw m.storage) _ m.storage room;
      }))
    ]

    init_console-HasRings :
        driver.init_f ≡ some init_console_virtio_f
        → init_console_virtio input raw m driver conf host pci ≡ some r
        → Leaves m driver r
    unfolding init_console_virtio virtio_device_queue_size_read bring_up virtio_device_queue_select
        virtio_device_queue_desc_write virtio_device_set_status pci_device_set_bar
        pci_device_set_status laid_for
    init_console-HasRings own = elim (Option-cases (malloc m.arenas m.memory (2 * vring_size))) [
      | inl full ↦ rw full (λ e. cc)
      | inr (p, got) ↦ rw got (λ e. subst (Leaves m driver) (some-injective _ r e) (record {
        rings = record {
          first = λ on. rw own (
              fresh-HasRing _ _ _ m.storage host _ (blank m.storage) room (sized _).1 (sized _) (
                written_earlier _ _ _ _
                  (written_earlier _ _ _ _ (written_earlier _ _ _ _ (written_last _ _ _)))));
          second = λ on f.
              fresh-HasRing _ _ _ _ host _ (blank _)
                (vring_init-HasRoom (raw m.storage) _ m.storage room) (sized _).1 (sized _)
                (written_earlier _ _ _ _ (written_last _ _ _));
        };
        same = refl;
        grows = one_more _ _ _ (
            one_more _ _ _ (
              one_more _ _ _ (
                one_more _ _ _ (
                  one_more _ _ _ (
                    one_more _ _ _ (
                      one_more _ _ _ (one_more _ _ _ (one_more _ _ _ (same_stores m.stores)))))))));
        room_left = vring_init-HasRoom _ _ _ (vring_init-HasRoom (raw m.storage) _ m.storage room);
      }))
    ]

  pub run_init-HasRings :
      (blank : IsBlank raw) (f : DriverInit) (m : Machine)
      → HasRoom m.storage
      → (driver : VirtioDriver) (conf host pci : ℕ) → IsSized input host
      → (r : VirtioDriver × Machine) → driver.init_f ≡ some f
      → run_init input raw f m driver conf host pci ≡ some r
      → Leaves m driver r
  unfolding run_init
  run_init-HasRings blank init_entropy_virtio_f m room driver conf host pci sized r own =
      init_entropy-HasRings blank m room driver conf host pci sized r own
  run_init-HasRings blank init_blk_virtio_f m room driver conf host pci sized r own =
      init_blk-HasRings blank m room driver conf host pci sized r own
  run_init-HasRings blank init_console_virtio_f m room driver conf host pci sized r own =
      init_console-HasRings blank m room driver conf host pci sized r own
