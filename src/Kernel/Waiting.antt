-- ===== src/Kernel/Waiting.antt =====
-- The two calls that wait, `demand_s` and `nanosleep_s` of src/strap_handler.c.
use demandos.Prelude.{ℕ, zero, suc, ◌+◌, Option, none, some, if◌then◌else◌, w64, minus_one, le64}
use demandos.Blk.Device.{BlockDevice}
use demandos.Timer.{Timer, demand_begin, nanosleep_begin, nanosleep_end}
use demandos.Kernel.{System, World, Outcome, returned, powered_off, no_return}

module _ (w : World) where
  -- The loop of `demand_s` from its n-th round on: interrupts run, and the clock is read.
  unfoldable pub demand_loop : ℕ → ℕ → Timer → ℕ → Option Timer
  demand_loop zero n t timeout = none
  demand_loop (suc rounds) n t timeout =
      let t' = w.interrupts n t in
      let rest = demand_loop rounds (n + 1) t' timeout in
      if w.is_past (w.stime (n + 1)) timeout then some t' else rest

  -- The loop of `nanosleep_s`.
  unfoldable pub nanosleep_loop : ℕ → ℕ → Timer → Option Timer
  nanosleep_loop zero n t = none
  nanosleep_loop (suc rounds) n t =
      let t' = w.interrupts n t in
      let rest = nanosleep_loop rounds (n + 1) t' in if t'.should_wake then some t' else rest

  module _ {dev : BlockDevice} where
    -- WAIT_TIMEOUT is -1.
    unfoldable pub demand_s : System dev → ℕ → Outcome dev
    unfolding demand_loop demand_begin
    demand_s s timeout =
        let until = w64 (w.stime 0 + timeout) in
        elim (demand_loop w.rounds 0 (demand_begin s.timer (w.stime 0) timeout) until) [
          | none ↦ no_return
          | some t ↦ returned minus_one (record s { timer = t })
        ]

    unfoldable pub nanosleep_s : System dev → ℕ → Outcome dev
    unfolding nanosleep_loop nanosleep_begin nanosleep_end
    nanosleep_s s duration =
        let sec = le64 s.memory duration in
        let nsec = le64 s.memory (duration + 8) in
        elim (nanosleep_loop w.rounds 0 (nanosleep_begin s.timer (w.wakeup (w.stime 0) sec nsec))) [
          | none ↦ no_return
          | some t ↦ powered_off (record s { timer = nanosleep_end t })
        ]
