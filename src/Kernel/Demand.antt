-- ===== src/Kernel/Demand.antt =====
-- When `demand_s` of src/strap_handler.c returns.
use demandos.Prelude.{
  ℕ, zero, suc, ◌+◌, ◌*◌, ◌^◌, ◌≤◌, ◌<◌, ◌≡◌, ◌∙◌, refl, sym, subst, arith, inl, inr, true, false,
  some, Bool-cases, ℕ_discrete, ◌≢◌, ltb, ltb→lt, lt→ltb, ltb-ge, w64, minus_one,
}
use demandos.Blk.Device.{BlockDevice}
use demandos.Timer.{Timer, demand_begin}
use demandos.Kernel.{System, World, returned}
use demandos.Kernel.Waiting.{demand_loop, demand_s}

-- 3e7, in ticks.
abbrev pub grace : ℕ
grace = 3 * 10 ^ 7

module _ (w : World) (until : ℕ) where
  -- The loop ends at the first reading that is past.
  demand_loop-first :
      (rounds n m : ℕ) (t : Timer)
      → n ≤ m
      → m < n + rounds
      → w.is_past (w.stime (m + 1)) until ≡ true
      → (k : ℕ) × (t' : Timer) × (k ≤ m)
        × (w.is_past (w.stime (k + 1)) until ≡ true)
        × ((j : ℕ) → n ≤ j → j < k → w.is_past (w.stime (j + 1)) until ≡ false)
        × (demand_loop w rounds n t until ≡ some t')
  unfolding demand_loop
  demand_loop-first zero n m t low within past = absurd (omega arith)
  demand_loop-first (suc rounds) n m t low within past =
      elim (Bool-cases (w.is_past (w.stime (n + 1)) until)) [
        | inl now ↦
            rw now (n, w.interrupts n t, low, now, λ j above below. absurd (omega arith), refl)
        | inr not_yet ↦
            let later : n ≢ m = λ e.
              let p = subst (λ k. w.is_past (w.stime (k + 1)) until ≡ true) (sym e) past in cc in
            let (k, t', bound, at, before, ends) =
              demand_loop-first rounds (n + 1) m (w.interrupts n t) (omega arith) (omega arith)
                past in
            (
              k,
              t',
              bound,
              at,
              (λ j above below. elim (ℕ_discrete n j) [
                | yes here ↦ subst (λ k. w.is_past (w.stime (k + 1)) until ≡ false) here not_yet
                | no other ↦ before j (omega arith) below
              ]),
              rw not_yet ends,
            )
      ]

-- The comparison with 3e7 added, made on doubles, is exact for numbers below 2 ^ 53.
pub record IsExact (w : World) (top : ℕ) : Type 0 where
  pub readings : (j : ℕ) → w.stime j < 2 ^ 53
  pub small : top + grace < 2 ^ 53
  pub is_past_lem : (now : ℕ) → now < 2 ^ 53 → w.is_past now top ≡ ltb (top + grace) now

-- `demand_s` returns WAIT_TIMEOUT, and nothing else, once the clock is read as more than 3e7 ticks past
-- the deadline: at the first such reading. It does so whatever the interrupts do, if the
-- clock comes so far within the rounds of the loop, and if no reading and no deadline needs more than 53
-- bits.
pub demand_s-first :
    {dev : BlockDevice} (w : World) (s : System dev) (timeout m : ℕ)
    → let until = w64 (w.stime 0 + timeout) in
      IsExact w until
      → m < w.rounds
      → until + grace < w.stime (m + 1)
      → (k : ℕ) × (t : Timer) × (k ≤ m)
        × (demand_s w s timeout ≡ returned minus_one (record s { timer = t }))
        × (until + grace < w.stime (k + 1))
        × ((j : ℕ) → j < k → w.stime (j + 1) ≤ until + grace)
unfolding demand_s
demand_s-first w s timeout m exact within past =
    let until = w64 (w.stime 0 + timeout) in
    let reads = λ (j : ℕ). exact.is_past_lem (w.stime j) (exact.readings j) in
    let (k, t, bound, at, before, ends) =
      demand_loop-first w until w.rounds 0 m (demand_begin s.timer (w.stime 0) timeout)
        (omega arith) (omega arith) (reads (m + 1) ∙ lt→ltb _ _ past) in
    (
      k,
      t,
      bound,
      rw (demand_s, ends) refl,
      ltb→lt _ _ (sym (reads (k + 1)) ∙ at),
      λ j below. ltb-ge _ _ (sym (reads (j + 1)) ∙ before j (omega arith) below),
    )
