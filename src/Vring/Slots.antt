-- ===== src/Vring/Slots.antt =====
-- The slot of the available ring that the driver fills, against the one that the device reads.
use demandos.Prelude.{ℕ, ◌-◌, ◌%◌, ◌^◌, ◌≤◌, ◌<◌, ◌≡◌, ◌≢◌, refl, arith}
use native.Mathlib.Nat.{mod-eq_of_lt, mod_self}
use demandos.Vring.{Vring, ring_modulus, vring_post_descr}

-- The slot in which a device of the VIRTIO standard looks for the request of a given count: the
-- count modulo the size of the queue.
abbrev pub device_slot : Vring → ℕ
device_slot v = v.avail_next % v.num

-- What a post leaves in the slots: the index in one of them, and in each other what it held.
abbrev pub FillsSlot : Vring → ℕ → ℕ → Vring → Type 0
FillsSlot v slot used w =
    (w.avail_ring slot ≡ used) × ((i : ℕ) → i ≢ slot → w.avail_ring i ≡ v.avail_ring i)

-- For every request of the first lap but the last, `vring_post_descr` fills the slot in which the
-- device looks for it, and no other. For the last one of the lap it fills slot 0, and no other; the
-- device looks in slot num - 1, which keeps what it held.
pub vring_post_descr_slot :
    (v : Vring) (used : ℕ)
    → 2 ≤ v.num
    → v.num ≤ 2 ^ 15
    → used < 2 ^ 16
    → (v.avail_next < v.num - 1 → FillsSlot v (device_slot v) used (vring_post_descr v used))
      × (v.avail_next ≡ v.num - 1
          → FillsSlot v 0 used (vring_post_descr v used)
            × (device_slot v ≡ v.num - 1)
            × ((vring_post_descr v used).avail_ring (device_slot v) ≡ v.avail_ring (v.num - 1)))
unfolding vring_post_descr
vring_post_descr_slot v used two top small =
    let e : ring_modulus v ≡ v.num - 1 = omega arith in
    (
      λ h.
          let device : device_slot v ≡ v.avail_next = mod-eq_of_lt (omega arith) in
          let driver : v.avail_next % (v.num - 1) ≡ v.avail_next = mod-eq_of_lt h in
          rw (e, device, driver) (ground arith, λ i other. ground (arith, other)),
      λ h.
          let device : device_slot v ≡ v.num - 1 = rw h (mod-eq_of_lt (omega arith)) in
          let driver : v.avail_next % (v.num - 1) ≡ 0 = rw h (mod_self (v.num - 1)) in
          rw (e, device, driver)
            ((ground arith, λ i other. ground (arith, other)), refl, ground arith),
    )
