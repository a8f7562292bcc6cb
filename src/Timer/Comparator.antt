-- ===== src/Timer/Comparator.antt =====
-- What `set_stimecmp` does to the deadlines that are pending.
use demandos.Prelude.{ℕ, ◌≤◌, ◌<◌, ◌≡◌, ◌≢◌, ◌⊎◌, inl, inr, arith, true}
use demandos.Timer.{Timer, stime_unset, set_stimecmp}

-- The comparator is as its shadow in memory says, and the deadlines are words other than the mark for
-- no time.
pub record IsSound (t : Timer) : Type 0 where
  pub shadowed : t.stimecmp ≡ t.shadow_stime
  pub word : t.shadow_stime ≤ stime_unset
  pub deferred_word : t.deferred_wakeup < stime_unset
  pub asleep_word : t.asleep_wakeup < stime_unset

-- It fires no later than the deadline of the deferred work.
abbrev pub IsArmedDeferred : Timer → Type 0
IsArmedDeferred t = t.deferred_wakeup ≢ 0 → t.stimecmp ≤ t.deferred_wakeup

-- It fires no later than that of the sleeping process, unless the process has been woken.
abbrev pub IsArmedAsleep : Timer → Type 0
IsArmedAsleep t = t.asleep_wakeup ≢ 0 → (t.stimecmp ≤ t.asleep_wakeup) ⊎ (t.should_wake ≡ true)

pub record IsArmed (t : Timer) : Type 0 where
  pub sound : IsSound t
  pub deferred_armed : IsArmedDeferred t
  pub asleep_armed : IsArmedAsleep t

-- What setting the comparator does: it is not later than the time asked for, nor than before unless
-- that time is the mark for no time; nothing else changes.
pub record Sets (t : Timer) (future : ℕ) (r : Timer) : Type 0 where
  pub sound : IsSound r
  pub early : r.stimecmp ≤ future
  pub earlier : future < stime_unset → r.stimecmp ≤ t.stimecmp
  pub same_deferred : r.deferred_wakeup ≡ t.deferred_wakeup
  pub same_asleep : r.asleep_wakeup ≡ t.asleep_wakeup
  pub same_wake : r.should_wake ≡ t.should_wake

pub set_stimecmp-Sets :
    (t : Timer) (future : ℕ)
    → future ≤ stime_unset
    → IsSound t
    → Sets t future (set_stimecmp t future)
unfolding set_stimecmp
set_stimecmp-Sets t future h v =
    let e = v.shadowed in
    let w = v.word in
    let d = v.deferred_word in
    let a = v.asleep_word in
    record {
      sound = record {
        shadowed = ground arith;
        word = ground arith;
        deferred_word = ground arith;
        asleep_word = ground arith;
      };
      early = ground arith;
      earlier = λ k. ground arith;
      same_deferred = ground arith;
      same_asleep = ground arith;
      same_wake = ground arith;
    }

-- The comparator set to a new deadline keeps what was armed armed.
pub set_stimecmp-IsArmedDeferred :
    (t : Timer) (future : ℕ)
    → future < stime_unset
    → IsSound t
    → IsArmedDeferred t
    → IsArmedDeferred (set_stimecmp t future)
set_stimecmp-IsArmedDeferred t future h v armed =
    let sets = set_stimecmp-Sets t future (omega arith) v in
    rw sets.same_deferred (λ some_time. omega (arith, sets.earlier h, armed some_time))

pub set_stimecmp-IsArmedAsleep :
    (t : Timer) (future : ℕ)
    → future < stime_unset
    → IsSound t
    → IsArmedAsleep t
    → IsArmedAsleep (set_stimecmp t future)
set_stimecmp-IsArmedAsleep t future h v armed =
    let sets = set_stimecmp-Sets t future (omega arith) v in
    rw (sets.same_asleep, sets.same_wake)
      (λ some_time. elim (armed some_time) [
        | inl k ↦ inl (omega (arith, sets.earlier h))
        | inr k ↦ inr k
      ])
