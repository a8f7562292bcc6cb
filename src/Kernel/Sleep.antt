-- ===== src/Kernel/Sleep.antt =====
-- `nanosleep_s` of src/strap_handler.c together with the timer interrupt that wakes it.
use demandos.Prelude.{
  ℕ, zero, suc, ◌+◌, ◌≤◌, ◌<◌, ◌≡◌, ◌≢◌, ◌∙◌, refl, sym, ap, subst, arith, inl, inr, true, false,
  some, Bool-cases, dec_lt, ℕ_discrete, ltb, ltb→lt, ltb-ge, ◌==◌, le64,
}
use demandos.Blk.Device.{BlockDevice}
use demandos.Timer.{
  Timer, stime_unset, set_stimecmp, unset_stimecmp, do_timer_deferreds, handle_deferred,
  handle_asleep, timer_interrupt_handler, nanosleep_begin, nanosleep_end,
}
use demandos.Timer.Comparator.{IsSound, IsArmed}
use demandos.Timer.Deadlines.{timer_interrupt_handler-IsArmed, sleeps, wakes, Event-IsArmed}
use demandos.Kernel.{System, World, powered_off}
use demandos.Kernel.Waiting.{nanosleep_loop, nanosleep_s}

-- The interrupts of the n-th `yield`: the timer's is taken just where the comparator has been reached at
-- `now n`, and its handler then reads the time `reads n`. `run` is the deferred work, which leaves the
-- sleeping process and the form of the timer alone.
pub record Interrupts (w : World) (run : ℕ → ℕ → Timer → Timer) (now reads : ℕ → ℕ) : Type 0 where
  pub in_order : (n : ℕ) → now n ≤ reads n
  pub taken :
      (n : ℕ) (t : Timer)
      → t.stimecmp ≤ now n
      → w.interrupts n t ≡ timer_interrupt_handler run t (reads n)
  pub not_taken : (n : ℕ) (t : Timer) → now n < t.stimecmp → w.interrupts n t ≡ t
  pub works : (f c : ℕ) (u : Timer) → IsSound u → IsSound (run f c u)
  pub same_asleep : (f c : ℕ) (u : Timer) → (run f c u).asleep_wakeup ≡ u.asleep_wakeup
  pub same_wake : (f c : ℕ) (u : Timer) → (run f c u).should_wake ≡ u.should_wake

set_stimecmp-asleep :
    (t : Timer) (future : ℕ)
    → ((set_stimecmp t future).asleep_wakeup ≡ t.asleep_wakeup)
      × ((set_stimecmp t future).should_wake ≡ t.should_wake)
unfolding set_stimecmp
set_stimecmp-asleep t future = (ground arith, ground arith)

module _ (w : World) (run : ℕ → ℕ → Timer → Timer) (now reads : ℕ → ℕ)
    (x : Interrupts w run now reads) where
  handle_deferred-asleep :
      (t : Timer) (stime : ℕ)
      → ((handle_deferred run t stime).asleep_wakeup ≡ t.asleep_wakeup)
        × ((handle_deferred run t stime).should_wake ≡ t.should_wake)
  unfolding handle_deferred do_timer_deferreds
  handle_deferred-asleep t stime = elim (Bool-cases (t.deferred_wakeup == 0)) [
    | inl idle ↦ rw idle (refl, refl)
    | inr busy ↦ rw busy (elim (Bool-cases (ltb t.deferred_wakeup stime)) [
      | inl due ↦ rw due (x.same_asleep _ _ t, x.same_wake _ _ t)
      | inr early ↦ rw early (set_stimecmp-asleep t t.deferred_wakeup)
    ])
  ]

  -- The interrupt wakes a sleeping process just where its deadline is past.
  timer_interrupt_handler-asleep :
      (t : Timer) (stime wakeup : ℕ)
      → t.asleep_wakeup ≡ wakeup
      → wakeup ≢ 0
      → t.should_wake ≡ false
      → let r = timer_interrupt_handler run t stime in
        (r.asleep_wakeup ≡ wakeup) × (r.should_wake ≡ ltb wakeup stime)
  unfolding timer_interrupt_handler unset_stimecmp handle_asleep
  timer_interrupt_handler-asleep t stime wakeup at some_time not_yet =
      let u = set_stimecmp t stime_unset in
      let v = handle_deferred run u stime in
      let (a, b) = set_stimecmp-asleep t stime_unset in
      let (c, d) = handle_deferred-asleep u stime in
      let (e, f) = set_stimecmp-asleep v v.asleep_wakeup in
      let asleep : v.asleep_wakeup ≡ wakeup = c ∙ a ∙ at in
      let quiet : v.should_wake ≡ false = d ∙ b ∙ not_yet in
      let busy : (v.asleep_wakeup == 0) ≡ false = ground arith in
      elim (Bool-cases (ltb v.asleep_wakeup stime)) [
        | inl due ↦ rw (busy, due) (asleep, sym due ∙ ap (λ n. ltb n stime) asleep)
        | inr early ↦
            rw (busy, early) (e ∙ asleep, f ∙ quiet ∙ sym early ∙ ap (λ n. ltb n stime) asleep)
      ]

  -- A process that sleeps until `wakeup`.
  record Sleeps (t : Timer) (wakeup : ℕ) : Type 0 where
    pub armed : IsArmed t
    pub asleep : t.asleep_wakeup ≡ wakeup
    pub quiet : t.should_wake ≡ false

  -- One `yield` wakes it where the deadline is past, and only then.
  yield_wakes :
      (n : ℕ) (t : Timer) (wakeup : ℕ)
      → wakeup ≢ 0
      → Sleeps t wakeup
      → let r = w.interrupts n t in
        IsArmed r
        × (r.asleep_wakeup ≡ wakeup)
        × (r.should_wake ≡ true → wakeup < reads n)
        × (r.should_wake ≡ false → now n ≤ wakeup)
  yield_wakes n t wakeup some_time v = elim (dec_lt (now n) t.stimecmp) [
    | yes early ↦
        let armed = v.armed.asleep_armed (λ e. some_time (sym v.asleep ∙ e)) in
        rw (x.not_taken n t early) (
          v.armed,
          v.asleep,
          λ woken. absurd (cc),
          λ _. elim armed [ inl h ↦ omega (arith, v.asleep) | inr h ↦ absurd (cc) ],
        )
    | no reached ↦
        let (asleep, wake) =
          timer_interrupt_handler-asleep t (reads n) wakeup v.asleep some_time v.quiet in
        rw (x.taken n t (omega arith)) (
          timer_interrupt_handler-IsArmed run t (reads n) x.works v.armed.sound,
          asleep,
          λ woken. ltb→lt wakeup (reads n) (sym wake ∙ woken),
          λ not_woken.
              let late = ltb-ge wakeup (reads n) (sym wake ∙ not_woken) in
              omega (arith, x.in_order n),
        )
  ]

  -- The loop ends at a `yield` at which the deadline is past, and no later than at the first.
  nanosleep_loop_wakes :
      (rounds n m : ℕ) (t : Timer) (wakeup : ℕ)
      → wakeup ≢ 0
      → Sleeps t wakeup
      → n ≤ m
      → m < n + rounds
      → wakeup < now m
      → (k : ℕ) × (t' : Timer) × (k ≤ m)
        × (nanosleep_loop w rounds n t ≡ some t')
        × (wakeup < reads k)
        × ((j : ℕ) → n ≤ j → j < k → now j ≤ wakeup)
        × IsArmed t'
        × (t'.should_wake ≡ true)
  unfolding nanosleep_loop
  nanosleep_loop_wakes zero n m t wakeup some_time v low within past = absurd (omega arith)
  nanosleep_loop_wakes (suc rounds) n m t wakeup some_time v low within past =
      let (armed, asleep, woken, not_woken) = yield_wakes n t wakeup some_time v in
      elim (Bool-cases (w.interrupts n t).should_wake) [
        | inl up ↦ (
          n,
          w.interrupts n t,
          low,
          simp up refl,
          woken up,
          λ j above below. absurd (omega arith),
          armed,
          up,
        )
        | inr still ↦
            let later : n ≢ m = λ e.
              absurd (omega (arith, not_woken still, subst (λ k. wakeup < now k) (sym e) past)) in
            let (k, t', bound, ends, due, before, armed', up) =
              nanosleep_loop_wakes rounds (n + 1) m (w.interrupts n t) wakeup some_time
                (record { armed = armed; asleep = asleep; quiet = still }) (omega arith)
                (omega arith) past in
            (
              k,
              t',
              bound,
              simp still ends,
              due,
              λ j above below. elim (ℕ_discrete n j) [
                | yes here ↦ subst (λ k. now k ≤ wakeup) here (not_woken still)
                | no other ↦ before j (omega arith) below
              ],
              armed',
              up,
            )
      ]

  -- Where a `yield` takes the timer's interrupt just if the comparator has been reached, and the
  -- deferred work leaves the sleeping process and the form of the timer alone; with the comparator
  -- armed and no process marked as woken, and for a deadline that is a word other than 0 and the mark
  -- for no time: `nanosleep_s` ends, by powering the machine off, if some `yield` within the rounds
  -- comes after the deadline. It does so no later than at the first such `yield`, at one whose
  -- interrupt reads a time after the deadline, and leaves the timer armed, with nobody asleep and
  -- nobody marked as woken.
  pub nanosleep_s-wakes :
      {dev : BlockDevice} (s : System dev) (duration m : ℕ)
      → IsArmed s.timer
      → s.timer.should_wake ≡ false
      → let wakeup = w.wakeup (w.stime 0) (le64 s.memory duration) (le64 s.memory (duration + 8)) in
        wakeup ≢ 0
        → wakeup < stime_unset
        → m < w.rounds
        → wakeup < now m
        → (k : ℕ) × (t : Timer) × (k ≤ m)
          × (nanosleep_s w s duration ≡ powered_off (record s { timer = t }))
          × (wakeup < reads k)
          × ((j : ℕ) → j < k → now j ≤ wakeup)
          × IsArmed t
          × (t.asleep_wakeup ≡ 0)
          × (t.should_wake ≡ false)
  unfolding nanosleep_s nanosleep_begin nanosleep_end
  nanosleep_s-wakes s duration m armed quiet some_time word within past =
      let wakeup = w.wakeup (w.stime 0) (le64 s.memory duration) (le64 s.memory (duration + 8)) in
      let t = nanosleep_begin s.timer wakeup in
      let (asleep, wake) = set_stimecmp-asleep (record s.timer { asleep_wakeup = wakeup }) wakeup in
      let (k, t', bound, ends, due, before, armed', up) =
        nanosleep_loop_wakes w.rounds 0 m t wakeup some_time
          (record {
            armed = Event-IsArmed run s.timer t x.works (sleeps wakeup word) armed;
            asleep = asleep;
            quiet = wake ∙ quiet;
          })
          (omega arith) (omega arith) past in
      (
        k,
        nanosleep_end t',
        bound,
        rw (ends, nanosleep_s) refl,
        due,
        λ j below. before j (omega arith) below,
        Event-IsArmed run t' (nanosleep_end t') x.works (wakes up) armed',
        refl,
        refl,
      )
