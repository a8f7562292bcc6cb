-- ===== src/Programs/Runtime.antt =====
-- src/runtime.c and the two calls of src/demandos.c that it makes.
use demandos.Prelude.{
  ℕ, zero, suc, ◌+◌, ◌*◌, ◌^◌, ◌<◌, ◌≡◌, ◌∙◌, refl, ap, subst, arith, inl, inr, true, Option, none,
  some, List, [], ◌∷◌, ◌++◌, ltb, ◌==◌, if◌then◌else◌, ◌>>=◌, Option-cases, w64, minus_one,
}
use demandos.Blk.Device.{BlockDevice}
use demandos.Memory.Arena.{malloc}
use demandos.Kernel.{
  System, World, Outcome, returned, powered_off, no_return, Arguments, demand_s_f, mount_hd_s_f,
}
use demandos.Kernel.Handlers.{mount_hd_s}
use demandos.Kernel.Demand.{grace, IsExact, demand_s-first}
use demandos.Kernel.Dispatch.{
  Handlers, assign_all, run_handler, system_call_dispatcher, configure_syscall_handlers,
}

-- WAIT_TIMEOUT, WAIT_EVENT_OCCURRED, and the timeout of the program, 5 * 1e7.
abbrev pub wait_timeout : ℕ
wait_timeout = minus_one

abbrev pub wait_event_occurred : ℕ
wait_event_occurred = 1

abbrev pub wait_time : ℕ
wait_time = 5 * 10 ^ 7

-- The lines that the program prints; the last stands for two.
pub data Notice : Type 0 where
  starting_up timed_out event_occurred : Notice

unfoldable pub notices : ℕ → List Notice
notices wait_result =
    if wait_result == wait_timeout
    then timed_out ∷ []
    else (if wait_result == wait_event_occurred then event_occurred ∷ [] else [])

module _ {dev : BlockDevice} (nr_syscalls : ℕ) where
  -- `registers` are what the other argument registers hold at the call.
  unfoldable pub wait_for_event : World → Arguments → System dev → ℕ → ℕ → Outcome dev
  wait_for_event w registers s timeout event =
      system_call_dispatcher w nr_syscalls s 209 (record registers { a0 = timeout; a1 = event })

  unfoldable pub mount_hd : World → Arguments → System dev → Outcome dev
  mount_hd w registers s =
      system_call_dispatcher w nr_syscalls s 210 (record registers { a0 = 0; a1 = 0 })

  -- `worlds n` is what the n-th wait meets in the machine, and `printf n` what the system calls of the
  -- C library's printf after it make of the system.
  module _ (worlds : ℕ → World) (registers : Arguments) (event : ℕ)
      (printf : ℕ → System dev → System dev) where
    -- So many rounds of the program's loop, from the n-th on: what is printed, and the system then;
    -- `none` where a wait does not return.
    unfoldable pub main_loop : ℕ → ℕ → System dev → Option (List Notice × System dev)
    unfolding wait_for_event notices
    main_loop zero n s = some ([], s)
    main_loop (suc rounds) n s = elim (wait_for_event (worlds n) registers s wait_time event) [
      | returned wait_result s' ↦
          main_loop rounds (n + 1) (printf n s') >>= λ q. some (notices wait_result ++ q.0, q.1)
      | powered_off s' ↦ none
      | no_return ↦ none
    ]

    -- The result of `mount_hd` is not looked at.
    unfoldable pub main : ℕ → World → System dev → Option (List Notice × System dev)
    unfolding main_loop mount_hd
    main rounds w s = elim (mount_hd w registers (printf 0 s)) [
      | returned result s' ↦ main_loop rounds 1 s' >>= λ q. some (starting_up ∷ q.0, q.1)
      | powered_off s' ↦ none
      | no_return ↦ none
    ]

-- The clock of a wait comes past its deadline and the time of grace within the rounds of the loop.
pub record Ticks (w : World) (timeout : ℕ) : Type 0 where
  pub exact : IsExact w (w64 (w.stime 0 + timeout))
  pub past_at : ℕ
  pub within : past_at < w.rounds
  pub past : w64 (w.stime 0 + timeout) + grace < w.stime (past_at + 1)

abbrev pub times : ℕ → List Notice
times zero = []
times (suc n) = timed_out ∷ times n

module _ (nr_syscalls : ℕ) (table : Handlers) where
  waits_assigned :
      (configure_syscall_handlers nr_syscalls table 209 ≡ some demand_s_f)
      × (configure_syscall_handlers nr_syscalls table 210 ≡ some mount_hd_s_f)
  unfolding configure_syscall_handlers assign_all
  waits_assigned = (refl, refl)

module _ {dev : BlockDevice} (nr_syscalls : ℕ) (table : Handlers) (inside : 210 < nr_syscalls) where
  abbrev IsConfigured : System dev → Type 0
  IsConfigured s = s.syscall_handlers ≡ configure_syscall_handlers nr_syscalls table

  -- A wait times out, and leaves the table of handlers.
  wait_for_event_lem :
      (w : World) (registers : Arguments) (s : System dev) (timeout event : ℕ)
      → IsConfigured s
      → Ticks w timeout
      → (s' : System dev) × (wait_for_event nr_syscalls w registers s timeout event
          ≡ returned wait_timeout s')
        × IsConfigured s'
  unfolding wait_for_event system_call_dispatcher run_handler
  wait_for_event_lem w registers s timeout event is ticks =
      let found : s.syscall_handlers 209 ≡ some demand_s_f =
        ap (λ t. t 209) is ∙ (waits_assigned nr_syscalls table).0 in
      let fits : ltb 209 nr_syscalls ≡ true = ground arith in
      let (_, t, _, ends, _, _) =
        demand_s-first w s timeout ticks.past_at ticks.exact ticks.within ticks.past in
      (record s { timer = t }, rw (fits, found) ends, is)

  -- What a call returns with is configured.
  abbrev StaysConfigured : Outcome dev → Type 0
  StaysConfigured (returned result s) = IsConfigured s
  StaysConfigured (powered_off s) = Unit
  StaysConfigured no_return = Unit

  mount_hd_s-StaysConfigured : (s : System dev) → IsConfigured s → StaysConfigured (mount_hd_s s)
  unfolding mount_hd_s
  mount_hd_s-StaysConfigured s is = elim (Option-cases (malloc s.arenas s.memory 500)) [
    | inl full ↦ rw (full, StaysConfigured) tt
    | inr (r, given) ↦ rw (given, StaysConfigured) is
  ]

  mount_hd-StaysConfigured :
      (w : World) (registers : Arguments) (s : System dev)
      → IsConfigured s
      → StaysConfigured (mount_hd nr_syscalls w registers s)
  unfolding mount_hd system_call_dispatcher run_handler
  mount_hd-StaysConfigured w registers s is =
      let found : s.syscall_handlers 210 ≡ some mount_hd_s_f =
        ap (λ t. t 210) is ∙ (waits_assigned nr_syscalls table).1 in
      let fits : ltb 210 nr_syscalls ≡ true = ground arith in
      rw (fits, found) (mount_hd_s-StaysConfigured s is)

  module _ (worlds : ℕ → World) (registers : Arguments) (event : ℕ)
      (printf : ℕ → System dev → System dev)
      (keeps : (n : ℕ) (s : System dev) → (printf n s).syscall_handlers ≡ s.syscall_handlers)
      (ticks : (n : ℕ) → Ticks (worlds n) wait_time) where
    main_loop-times :
        (rounds n : ℕ) (s : System dev)
        → IsConfigured s
        → (s' : System dev) × (main_loop nr_syscalls worlds registers event printf rounds n s
            ≡ some (times rounds, s'))
    unfolding main_loop notices
    main_loop-times zero n s is = (s, refl)
    main_loop-times (suc rounds) n s is =
        let (s', ends, still) =
          wait_for_event_lem (worlds n) registers s wait_time event is (ticks n) in
        let (s'', rest) = main_loop-times rounds (n + 1) (printf n s') (keeps n s' ∙ still) in
        (s'', rw (ends, rest, main_loop) refl)

    -- With the handlers configured in a table of more than 210, printf leaving their table alone, and a clock that in every wait comes
    -- far enough past the deadline while the loop of that wait runs: if `mount_hd` returns, the program
    -- says that it starts, and then, for every number of rounds, in each that there was a timeout, and
    -- never that an event occurred.
    pub main-times :
        (rounds : ℕ) (w : World) (s s1 : System dev) (result : ℕ)
        → IsConfigured s
        → mount_hd nr_syscalls w registers (printf 0 s) ≡ returned result s1
        → (s' : System dev) × (main nr_syscalls worlds registers event printf rounds w s
            ≡ some (starting_up ∷ times rounds, s'))
    unfolding main
    main-times rounds w s s1 result is mounts =
        let configured =
          subst StaysConfigured mounts
            (mount_hd-StaysConfigured w registers (printf 0 s) (keeps 0 s ∙ is)) in
        let (s', rest) = main_loop-times rounds 1 s1 configured in
        (s', rw (mounts, rest, main) refl)
