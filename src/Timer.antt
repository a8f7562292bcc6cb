-- ===== src/Timer.antt =====
-- The timer: the comparator of src/system.c, the kernel's deferred work of src/os.c, and the timer
-- interrupt and the calls that set a deadline in src/strap_handler.c. Times are uint64_t.
pub mod Comparator
pub mod Deadlines
use demandos.Prelude.{
  ℕ, ◌+◌, ◌-◌, ◌*◌, ◌/◌, ◌%◌, ◌^◌, Bool, true, false, ◌&&◌, not, ltb, ◌==◌, if◌then◌else◌, w64,
  bit_or,
}

-- STIME_UNSET
abbrev pub stime_unset : ℕ
stime_unset = 2 ^ 64 - 1

-- The comparator with its shadow in memory, `_kernel.deferred` and `_current.asleep`. A function
-- pointer and a cookie are numbers, and NULL is 0.
pub record Timer : Type 0 where
  pub stimecmp : ℕ
  pub shadow_stime : ℕ
  pub deferred_wakeup : ℕ
  pub deferred : ℕ
  pub deferred_cookie : ℕ
  pub asleep_wakeup : ℕ
  pub should_wake : Bool

unfoldable pub set_stimecmp : Timer → ℕ → Timer
set_stimecmp t future =
    if not (future == stime_unset)
      && (not (t.shadow_stime == stime_unset) && ltb t.shadow_stime future)
    then t
    else record t { stimecmp = future; shadow_stime = future }

unfoldable pub unset_stimecmp : Timer → Timer
unfolding set_stimecmp
unset_stimecmp t = set_stimecmp t stime_unset

-- `now` is what `get_stime` reads.
unfoldable pub set_deferred : Timer → ℕ → ℕ → ℕ → ℕ → Timer
unfolding set_stimecmp
set_deferred t now whence deferred cookie =
    let wakeup = w64 (now + whence) in
    set_stimecmp
      (record t { deferred_cookie = cookie; deferred_wakeup = wakeup; deferred = deferred }) wakeup

-- `demand_s` up to its loop.
unfoldable pub demand_begin : Timer → ℕ → ℕ → Timer
unfolding set_stimecmp
demand_begin t now timeout = set_stimecmp t (w64 (now + timeout))

-- `nanosleep_s` up to its loop, and after it; the deadline, which the source computes in floating
-- point, is an argument.
unfoldable pub nanosleep_begin : Timer → ℕ → Timer
unfolding set_stimecmp
nanosleep_begin t wakeup = set_stimecmp (record t { asleep_wakeup = wakeup }) wakeup

unfoldable pub nanosleep_end : Timer → Timer
nanosleep_end t = record t { should_wake = false; asleep_wakeup = 0 }

-- `run` is a call through a function pointer with its cookie.
module _ (run : ℕ → ℕ → Timer → Timer) where
  unfoldable pub do_timer_deferreds : Timer → ℕ → Timer
  do_timer_deferreds t now =
      let t' = run t.deferred t.deferred_cookie t in
      if ltb t.deferred_wakeup now
      then record t' { deferred = 0; deferred_cookie = 0; deferred_wakeup = 0 }
      else t

  -- The part of the handler that is about the kernel's deferred work.
  unfoldable pub handle_deferred : Timer → ℕ → Timer
  unfolding do_timer_deferreds set_stimecmp
  handle_deferred t stime =
      if t.deferred_wakeup == 0
      then t
      else (if ltb t.deferred_wakeup stime
          then do_timer_deferreds t stime
          else set_stimecmp t t.deferred_wakeup)

  -- The part that is about the sleeping process.
  unfoldable pub handle_asleep : Timer → ℕ → Timer
  unfolding set_stimecmp
  handle_asleep t stime =
      if t.asleep_wakeup == 0
      then t
      else (if ltb t.asleep_wakeup stime
          then record t { should_wake = true }
          else set_stimecmp t t.asleep_wakeup)

  unfoldable pub timer_interrupt_handler : Timer → ℕ → Timer
  unfolding unset_stimecmp handle_deferred handle_asleep
  timer_interrupt_handler t stime = handle_asleep (handle_deferred (unset_stimecmp t) stime) stime
