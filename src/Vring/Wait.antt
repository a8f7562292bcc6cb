-- ===== src/Vring/Wait.antt =====
-- `vring_wait_completion`: the wait ends with the first move of the device.
use demandos.Prelude.{
  ◌∙◌, sym, ap, ◌⊎◌, ◌^◌, w16, inl, inr, ◌+◌, refl, some, ℕ, zero, suc, ◌≤◌, ◌<◌, ◌≡◌, ◌≢◌, subst,
  ℕ_discrete, arith, Bool-cases, ◌==◌, ==_iff,
}
use demandos.Vring.{Vring, wait_loop, vring_wait_completion}

wait_loop_first :
    (rounds : ℕ) (reads : ℕ → ℕ) (n used_last k : ℕ)
    → n ≤ k
    → k < n + rounds
    → reads k ≢ used_last
    → (m : ℕ) × (wait_loop rounds reads n used_last ≡ some (reads m))
      × (m ≤ k)
      × (reads m ≢ used_last)
      × ((j : ℕ) → n ≤ j → j < m → reads j ≡ used_last)
unfolding wait_loop
wait_loop_first zero reads n used_last k low high moved = absurd (omega arith)
wait_loop_first (suc rounds) reads n used_last k low high moved =
    elim (Bool-cases (reads n == used_last)) [
      | inr here ↦ rw here (n, refl, low, ground arith, λ j a b. absurd (omega arith))
      | inl same ↦
          let stays : reads n ≡ used_last = (==_iff (reads n) used_last).0 same in
          let later : n ≢ k = λ e. moved (subst (λ q. reads q ≡ used_last) e stays) in
          let (m, found, le, at, before) =
            wait_loop_first rounds reads (n + 1) used_last k (omega arith) (omega arith) moved in
          rw same (
            m,
            found,
            le,
            at,
            λ j a b. elim (ℕ_discrete n j) [
              | yes e ↦ subst (λ q. reads q ≡ used_last) e stays
              | no ne ↦ before j (omega arith) b
            ],
          )
    ]

-- If the device has moved by the k-th read of used->idx, a wait that allows more than k reads ends:
-- it records the first value that differs from the last one seen, and changes nothing else.
pub vring_wait_completion_lem :
    (rounds : ℕ) (reads : ℕ → ℕ) (v : Vring) (k : ℕ)
    → k < rounds
    → reads k ≢ v.used_last
    → (m : ℕ) × (vring_wait_completion rounds reads v
        ≡ some (record v { bookeeping = record (v.bookeeping) { used_last = reads m } }))
      × (m ≤ k)
      × (reads m ≢ v.used_last)
      × ((j : ℕ) → j < m → reads j ≡ v.used_last)
unfolding vring_wait_completion
vring_wait_completion_lem rounds reads v k high moved =
    let (m, found, le, at, before) =
      wait_loop_first rounds reads 0 v.used_last k (omega arith) (omega arith) moved in
    (m, rw (found, vring_wait_completion), le, at, λ j h. before j (omega arith) h)

-- The device's count as it is read while a request is served: the old count or the next one, and the
-- next one within the reads that are allowed.
pub record Serves (patience count : ℕ) (reads : ℕ → ℕ) : Type 0 where
  pub steps : (j : ℕ) → (reads j ≡ count) ⊎ (reads j ≡ w16 (count + 1))
  pub moves : (j : ℕ) × (j < patience) × (reads j ≡ w16 (count + 1))

next_differs : (c : ℕ) → c < 2 ^ 16 → w16 (c + 1) ≢ c
next_differs c h = omega arith

-- A wait for a request that the device serves ends with the device's next count.
pub vring_wait_completion-Serves :
    (patience : ℕ) (reads : ℕ → ℕ) (v : Vring) (count : ℕ)
    → count < 2 ^ 16
    → Serves patience count reads
    → v.used_last ≡ count
    → vring_wait_completion patience reads v
      ≡ some (record v { bookeeping = record (v.bookeeping) { used_last = w16 (count + 1) } })
vring_wait_completion-Serves patience reads v count word serves counted =
    let (j, within, at) = serves.moves in
    let (m, ends, _, differs, _) =
      vring_wait_completion_lem patience reads v j within
        (λ e. next_differs count word (sym at ∙ e ∙ counted)) in
    let last : reads m ≡ w16 (count + 1) = elim (serves.steps m) [
      | inl e ↦ absurd (differs (e ∙ sym counted))
      | inr e ↦ e
    ] in
    ends
    ∙ ap (λ (u : ℕ). some (record v { bookeeping = record (v.bookeeping) { used_last = u } })) last
