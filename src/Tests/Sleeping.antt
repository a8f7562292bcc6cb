-- ===== src/Tests/Sleeping.antt =====
-- A process that sleeps for 45 ticks, on a clock that runs by ten from one `yield` to the next.
use demandos.Prelude.{ℕ, ◌+◌, ◌*◌, ◌≤◌, ◌<◌, ◌≡◌, refl, arith, false, leb, if◌then◌else◌}
use demandos.Timer.{Timer, timer_interrupt_handler}
use demandos.Timer.Comparator.{IsArmed}
use demandos.Kernel.{World, powered_off}
use demandos.Kernel.Waiting.{nanosleep_s}
use demandos.Kernel.Sleep.{Interrupts, nanosleep_s-wakes}
use demandos.Tests.Times.{nothing, idle-IsArmed}
use demandos.Tests.Calls.{kernel, world}

abbrev ticking : World
ticking = record world {
  interrupts =
      λ n t. if leb t.stimecmp (n * 10) then timer_interrupt_handler nothing t (n * 10) else t;
  wakeup = λ now sec nsec. now + sec + 45;
}

ticking-Interrupts : Interrupts ticking nothing (λ n. n * 10) (λ n. n * 10)
ticking-Interrupts = record {
  in_order = λ n. omega arith;
  taken = λ n t h. ground arith;
  not_taken = λ n t h. ground arith;
  works = λ f c u v. v;
  same_asleep = λ f c u. refl;
  same_wake = λ f c u. refl;
}

nanosleep_s-wakes_example :
    (k : ℕ) × (t : Timer) × (k ≤ 5)
    × (nanosleep_s ticking kernel 0 ≡ powered_off (record kernel { timer = t }))
    × (45 < k * 10)
    × ((j : ℕ) → j < k → j * 10 ≤ 45)
    × IsArmed t
    × (t.asleep_wakeup ≡ 0)
    × (t.should_wake ≡ false)
nanosleep_s-wakes_example =
    nanosleep_s-wakes ticking nothing (λ n. n * 10) (λ n. n * 10) ticking-Interrupts kernel 0 5
      idle-IsArmed refl (omega arith) (omega arith) (omega arith) (omega arith)
