-- ===== src/Tests/Times.antt =====
-- Deadlines that meet.
use demandos.Prelude.{ℕ, arith, refl, ◌≡◌, false, true}
use demandos.Timer.{
  Timer, stime_unset, set_stimecmp, unset_stimecmp, set_deferred, nanosleep_begin, handle_deferred,
  handle_asleep, do_timer_deferreds, timer_interrupt_handler,
}
use demandos.Timer.Comparator.{IsSound, IsArmed}

abbrev pub nothing : ℕ → ℕ → Timer → Timer
nothing f c t = t

-- Nothing is pending.
abbrev idle : Timer
idle = record {
  stimecmp = stime_unset;
  shadow_stime = stime_unset;
  deferred_wakeup = 0;
  deferred = 0;
  deferred_cookie = 0;
  asleep_wakeup = 0;
  should_wake = false;
}

-- Deferred work for 150, and a process that sleeps until 120.
abbrev busy : Timer
busy = nanosleep_begin (set_deferred idle 100 50 7 8) 120

busy_comparator : busy.stimecmp ≡ 120
unfolding nanosleep_begin set_deferred set_stimecmp
busy_comparator = refl

-- After the interrupt at 121 the process is awake, and the next is at 150.
after_interrupt :
    ((timer_interrupt_handler nothing busy 121).stimecmp ≡ 150)
    × ((timer_interrupt_handler nothing busy 121).should_wake ≡ true)
unfolding timer_interrupt_handler unset_stimecmp handle_deferred handle_asleep do_timer_deferreds
    nanosleep_begin set_deferred set_stimecmp
after_interrupt = (refl, refl)

idle-IsSound : IsSound idle
idle-IsSound = record {
  shadowed = refl;
  word = omega arith;
  deferred_word = omega arith;
  asleep_word = omega arith;
}

pub idle-IsArmed : IsArmed idle
idle-IsArmed = record {
  sound = idle-IsSound;
  deferred_armed = λ h. absurd (h refl);
  asleep_armed = λ h. absurd (h refl);
}

-- Work for 150, asleep until 120.
pending-IsSound :
    IsSound (record idle {
      stimecmp = 120;
      shadow_stime = 120;
      deferred_wakeup = 150;
      asleep_wakeup = 120;
    })
pending-IsSound = record {
  shadowed = refl;
  word = omega arith;
  deferred_word = omega arith;
  asleep_word = omega arith;
}
