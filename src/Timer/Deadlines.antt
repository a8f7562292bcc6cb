-- ===== src/Timer/Deadlines.antt =====
-- No deadline that is set is missed: the comparator is never later than one that is pending.
use demandos.Prelude.{ℕ, ◌+◌, ◌<◌, ◌≡◌, inl, inr, refl, arith, true, ltb, ◌==◌, Bool-cases, w64}
use demandos.Timer.{
  Timer, stime_unset, set_stimecmp, unset_stimecmp, set_deferred, demand_begin, nanosleep_begin,
  nanosleep_end, do_timer_deferreds, handle_deferred, handle_asleep, timer_interrupt_handler,
}
use demandos.Timer.Comparator.{
  IsSound, IsArmedDeferred, IsArmed, set_stimecmp-Sets, set_stimecmp-IsArmedDeferred,
  set_stimecmp-IsArmedAsleep,
}

module _ (run : ℕ → ℕ → Timer → Timer) where
  handle_deferred-armed :
      (t : Timer) (stime : ℕ)
      → ((f c : ℕ) (u : Timer) → IsSound u → IsSound (run f c u))
      → IsSound t
      → IsSound (handle_deferred run t stime) × IsArmedDeferred (handle_deferred run t stime)
  unfolding handle_deferred do_timer_deferreds
  handle_deferred-armed t stime works v = elim (Bool-cases (t.deferred_wakeup == 0)) [
    | inl idle ↦ rw idle (v, λ some_time. ground arith)
    | inr busy ↦ rw busy (elim (Bool-cases (ltb t.deferred_wakeup stime)) [
      | inl due ↦
          let after = works t.deferred t.deferred_cookie t v in
          rw due (
            record {
              shadowed = after.shadowed;
              word = after.word;
              deferred_word = omega arith;
              asleep_word = after.asleep_word;
            },
            λ some_time. ground arith,
          )
      | inr early ↦
          let sets = set_stimecmp-Sets t t.deferred_wakeup (omega (arith, v.deferred_word)) v in
          rw early (sets.sound, λ some_time. omega (arith, sets.early, sets.same_deferred))
    ])
  ]

  handle_asleep-IsArmed :
      (t : Timer) (stime : ℕ) → IsSound t → IsArmedDeferred t → IsArmed (handle_asleep run t stime)
  unfolding handle_asleep
  handle_asleep-IsArmed t stime v armed = elim (Bool-cases (t.asleep_wakeup == 0)) [
    | inl idle ↦
        rw idle
          (record { sound = v; deferred_armed = armed; asleep_armed = λ some_time. ground arith })
    | inr busy ↦ rw busy (elim (Bool-cases (ltb t.asleep_wakeup stime)) [
      | inl due ↦ rw due (record {
        sound = record {
          shadowed = v.shadowed;
          word = v.word;
          deferred_word = v.deferred_word;
          asleep_word = v.asleep_word;
        };
        deferred_armed = armed;
        asleep_armed = λ some_time. inr refl;
      })
      | inr early ↦
          let sets = set_stimecmp-Sets t t.asleep_wakeup (omega (arith, v.asleep_word)) v in
          rw early (record {
            sound = sets.sound;
            deferred_armed = set_stimecmp-IsArmedDeferred t t.asleep_wakeup v.asleep_word v armed;
            asleep_armed = λ some_time. inl (omega (arith, sets.early, sets.same_asleep));
          })
    ])
  ]

  -- After the timer interrupt, whenever the comparator was set for, the deferred work that is
  -- still pending has its deadline at or after the comparator, and so has the process that is
  -- still asleep, unless it has been woken. This asks that before the interrupt and after the
  -- deferred work, which may otherwise do what it likes with the timer, the comparator is as its
  -- shadow says and the deadlines are words other than the mark for no time.
  pub timer_interrupt_handler-IsArmed :
      (t : Timer) (stime : ℕ)
      → ((f c : ℕ) (u : Timer) → IsSound u → IsSound (run f c u))
      → IsSound t
      → IsArmed (timer_interrupt_handler run t stime)
  unfolding timer_interrupt_handler unset_stimecmp
  timer_interrupt_handler-IsArmed t stime works v =
      let sets = set_stimecmp-Sets t stime_unset (omega arith) v in
      let (sound, armed) =
        handle_deferred-armed (set_stimecmp t stime_unset) stime works sets.sound in
      handle_asleep-IsArmed (handle_deferred run (set_stimecmp t stime_unset) stime) stime sound
        armed

  -- What happens to the timer: a deadline is set, the process that was woken goes on, the interrupt.
  pub data Event : Timer → Timer → Type 0 where
    defers :
        {t : Timer} (now whence deferred cookie : ℕ)
        → w64 (now + whence) < stime_unset
        → Event t (set_deferred t now whence deferred cookie)
    demands :
        {t : Timer} (now timeout : ℕ)
        → w64 (now + timeout) < stime_unset
        → Event t (demand_begin t now timeout)
    sleeps : {t : Timer} (wakeup : ℕ) → wakeup < stime_unset → Event t (nanosleep_begin t wakeup)
    wakes : {t : Timer} → t.should_wake ≡ true → Event t (nanosleep_end t)
    fires : {t : Timer} (stime : ℕ) → Event t (timer_interrupt_handler run t stime)

  pub data Events : Timer → Timer → Type 0 where
    done : {t : Timer} → Events t t
    next : {t t' t'' : Timer} → Event t t' → Events t' t'' → Events t t''

  pub Event-IsArmed :
      (t t' : Timer)
      → ((f c : ℕ) (u : Timer) → IsSound u → IsSound (run f c u))
      → Event t t'
      → IsArmed t
      → IsArmed t'
  unfolding set_deferred demand_begin nanosleep_begin nanosleep_end
  Event-IsArmed t t' works (fires stime) v = timer_interrupt_handler-IsArmed t stime works v.sound
  Event-IsArmed t t' works (wakes woken) v = record {
    sound = record {
      shadowed = v.sound.shadowed;
      word = v.sound.word;
      deferred_word = v.sound.deferred_word;
      asleep_word = omega arith;
    };
    deferred_armed = v.deferred_armed;
    asleep_armed = λ some_time. ground arith;
  }
  Event-IsArmed t t' works (demands now timeout h) v =
      let w = w64 (now + timeout) in
      record {
        sound = (set_stimecmp-Sets t w (omega arith) v.sound).sound;
        deferred_armed = set_stimecmp-IsArmedDeferred t w h v.sound v.deferred_armed;
        asleep_armed = set_stimecmp-IsArmedAsleep t w h v.sound v.asleep_armed;
      }
  Event-IsArmed t t' works (sleeps wakeup h) v =
      let u = record t { asleep_wakeup = wakeup } in
      let sound : IsSound u = record {
        shadowed = v.sound.shadowed;
        word = v.sound.word;
        deferred_word = v.sound.deferred_word;
        asleep_word = h;
      } in
      let sets = set_stimecmp-Sets u wakeup (omega arith) sound in
      record {
        sound = sets.sound;
        deferred_armed = set_stimecmp-IsArmedDeferred u wakeup h sound v.deferred_armed;
        asleep_armed = λ some_time. inl (omega (arith, sets.early, sets.same_asleep));
      }
  Event-IsArmed t t' works (defers now whence deferred cookie h) v =
      let w = w64 (now + whence) in
      let u = record t { deferred_cookie = cookie; deferred_wakeup = w; deferred = deferred } in
      let sound : IsSound u = record {
        shadowed = v.sound.shadowed;
        word = v.sound.word;
        deferred_word = h;
        asleep_word = v.sound.asleep_word;
      } in
      let sets = set_stimecmp-Sets u w (omega arith) sound in
      record {
        sound = sets.sound;
        deferred_armed = λ some_time. omega (arith, sets.early, sets.same_deferred);
        asleep_armed = set_stimecmp-IsArmedAsleep u w h sound v.asleep_armed;
      }
