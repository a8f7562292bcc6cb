-- ===== src/Vring/Added.antt =====
-- What `vring_add_to_descr` does to a ring that is ready.
use demandos.Prelude.{
  ℕ, ◌+◌, ◌-◌, ◌%◌, ◌^◌, ◌≤◌, ◌<◌, ◌≡◌, ◌≢◌, ◌⊎◌, inl, inr, arith, some, Bool, false, leb, ◌==◌,
  if◌then◌else◌, w16, dec_lt,
}
use native.Mathlib.Nat.{mod-eq_of_lt}
use demandos.Vring.{Vring, ring_modulus, filled, vring_add_to_descr}

-- A ring of at least four descriptors, at most as many as a device may have.
pub record IsReady (v : Vring) : Type 0 where
  pub enough : 4 ≤ v.num
  pub bounded : v.num ≤ 2 ^ 15
  pub in_table : v.descr_next < v.num - 1

-- The next index round the table, less its last place.
abbrev pub step : ℕ → ℕ → ℕ
step m i = (i + 1) % m

pub step_cases :
    (m i : ℕ) → i < m → ((step m i ≡ i + 1) × (i + 1 < m)) ⊎ ((step m i ≡ 0) × (i + 1 ≡ m))
step_cases m i h = elim (dec_lt (i + 1) m) [
  | yes p ↦ inl (mod-eq_of_lt p, p)
  | no p ↦ inr (grind arith, omega arith)
]

-- Three indices in a row are different where there are three places or more.
pub steps_differ :
    (m i : ℕ)
    → 3 ≤ m
    → i < m
    → let j = step m i in let k = step m j in (j < m) × (k < m) × (i ≢ j) × (i ≢ k) × (j ≢ k)
steps_differ m i h lt = grind (arith, step_cases m i lt, step_cases m (step m i))

pub modulus-eq : (v : Vring) → IsReady v → ring_modulus v ≡ v.num - 1
modulus-eq v r = omega arith

-- The ring after one descriptor has been added.
unfoldable pub added : Vring → ℕ → ℕ → ℕ → ℕ → Bool → Vring
added v buf size flags place ends_chain =
    let next = step (v.num - 1) v.descr_next in
    record v {
      desc = λ i. if i == place then filled buf size flags next ends_chain else v.desc i;
      bookeeping = record (v.bookeeping) { descr_next = next };
    }

pub vring_add_to_descr-added :
    (v : Vring) (buf size flags place : ℕ) (ends_chain : Bool)
    → IsReady v
    → place < v.num
    → vring_add_to_descr v buf size flags place ends_chain
      ≡ some (step (v.num - 1) v.descr_next, added v buf size flags place ends_chain)
unfolding vring_add_to_descr added
vring_add_to_descr-added v buf size flags place ends_chain r h =
    let lt = (step_cases (v.num - 1) v.descr_next r.in_table) in
    let small : w16 (step (v.num - 1) v.descr_next) ≡ step (v.num - 1) v.descr_next = omega arith in
    let ok : leb v.num place ≡ false = ground arith in rw (modulus-eq v r, small, ok)

pub added-IsReady :
    (v : Vring) (buf size flags place : ℕ) (ends_chain : Bool)
    → IsReady v
    → IsReady (added v buf size flags place ends_chain)
unfolding added
added-IsReady v buf size flags place ends_chain r =
    omega (arith, step_cases (v.num - 1) v.descr_next r.in_table)
