-- ===== src/Kernel/Runs.antt =====
-- Runs of system calls from the state that the kernel starts with.
use demandos.Prelude.{
  ℕ, ◌<◌, ◌≡◌, ◌≢◌, ◌∙◌, refl, sym, ap, subst, arith, inl, inr, true, false, some, Bool-cases,
  Option-cases, ltb, ◌==◌,
}
use mathlib.Core.List.Memᴰ
use demandos.Blk.Device.{BlockDevice}
use demandos.Blk.Sectors.Serving.{IsServing}
use demandos.Vring.Wait.{Serves}
use demandos.Io.{Io, configure_stdio}
use demandos.Io.Laws.{IsTable, IsInitial, done, next, configured, Steps-IsTable_initial}
use demandos.Io.Sound.{IsSound}
use demandos.Kernel.{System, World, returned, Arguments, set_brk_s_f}
use demandos.Kernel.Handlers.{set_brk_s}
use demandos.Kernel.Dispatch.{
  Handlers, run_handler, system_call_dispatcher, configure_syscall_handlers,
}
use demandos.Kernel.Table.{IsEntry, configure_syscall_handlers-IsEntry}
use demandos.Kernel.Sound.{Leaves, run_handler-Leaves}

module _ {dev : BlockDevice} (nr_syscalls : ℕ) where
  system_call_dispatcher-Leaves :
      (w : World) (s : System dev) (a7 : ℕ) (a : Arguments)
      → IsSound s.io
      → Serves w.patience s.io.console.used_last w.console_reads
      → Leaves s (system_call_dispatcher w nr_syscalls s a7 a)
  unfolding system_call_dispatcher
  system_call_dispatcher-Leaves w s a7 a v serves = elim (Bool-cases (ltb a7 nr_syscalls)) [
    | inr behind ↦ rw (behind, Leaves) tt
    | inl inside ↦ rw inside (elim (Option-cases (s.syscall_handlers a7)) [
      | inl null ↦ rw (null, Leaves) tt
      | inr (f, is) ↦ rw is (run_handler-Leaves w f s a v serves)
    ])
  ]

  -- System calls that return, one after the other, each in a machine in which the console's device
  -- counts what it is given. The program may change its memory in between.
  pub data Calls : System dev → System dev → Type 0 where
    none_made : {s : System dev} → Calls s s
    made :
        {s s' s'' : System dev} (w : World) (a7 : ℕ) (a : Arguments) (result : ℕ)
        → Serves w.patience s.io.console.used_last w.console_reads
        → system_call_dispatcher w nr_syscalls s a7 a ≡ returned result s'
        → Calls s' s''
        → Calls s s''
    computed :
        {s s'' : System dev} (memory : ℕ → ℕ)
        → Calls (record s { memory = memory }) s''
        → Calls s s''

  Calls-Leaves :
      (s s' : System dev)
      → Calls s s'
      → IsSound s.io
      → IsSound s'.io × (s'.syscall_handlers ≡ s.syscall_handlers)
  Calls-Leaves s s' none_made v = (v, refl)
  Calls-Leaves s s' (made {s' = between} w a7 a result serves returns rest) v =
      let (v', same) = subst (Leaves s) returns (system_call_dispatcher-Leaves w s a7 a v serves) in
      let (v'', same') = Calls-Leaves between s' rest v' in (v'', same' ∙ same)
  Calls-Leaves s s' (computed memory rest) v = Calls-Leaves (record s { memory = memory }) s' rest v

  -- A system whose handlers have been configured, with the console as its one descriptor.
  pub record IsStarted (s : System dev) : Type 0 where
    pub io_before : Io dev
    pub table_before : Handlers
    pub nothing_open : IsInitial io_before
    pub stdio : s.io ≡ configure_stdio io_before
    pub configured_handlers :
        s.syscall_handlers ≡ configure_syscall_handlers nr_syscalls table_before
    pub serving : IsServing s.io.console

  -- After any run of system calls that return, from a system that has been started and with a console
  -- whose device counts what it is given, whatever the calls, their arguments and the program's own
  -- stores: the descriptors' handlers fit, the console's ring serves, and each entry of the table of
  -- handlers is the one that was configured.
  pub Calls-IsSound :
      (s s' : System dev)
      → IsStarted s
      → Calls s s'
      → IsSound s'.io × ((n : ℕ) → n < nr_syscalls → IsEntry n (s'.syscall_handlers n))
  Calls-IsSound s s' started calls =
      let sound : IsSound s.io = record {
        table = subst IsTable (sym started.stdio) (
            Steps-IsTable_initial started.io_before (configure_stdio started.io_before)
              started.nothing_open (next configured done));
        serving = started.serving;
      } in
      let (v, same) = Calls-Leaves s s' calls sound in
      (
        v,
        λ n inside.
            subst (λ (t : Handlers). IsEntry n (t n)) (sym (same ∙ started.configured_handlers))
              (configure_syscall_handlers-IsEntry nr_syscalls n started.table_before inside),
      )

  -- Once the handlers are configured, a call of brk with an address that is not 0 returns it and changes
  -- nothing but the break, and a later call with 0 returns that address and changes nothing.
  pub system_call_dispatcher_brk :
      (w w' : World) (table : Handlers) (s : System dev) (a a' : Arguments)
      → s.syscall_handlers ≡ configure_syscall_handlers nr_syscalls table
      → 214 < nr_syscalls
      → a.a0 ≢ 0
      → a'.a0 ≡ 0
      → let s' = record s { brk = a.a0 } in
        (system_call_dispatcher w nr_syscalls s 214 a ≡ returned (a.a0) s')
        × (system_call_dispatcher w' nr_syscalls s' 214 a' ≡ returned (a.a0) s')
  unfolding system_call_dispatcher run_handler set_brk_s
  system_call_dispatcher_brk w w' table s a a' is inside given asked =
      let found : s.syscall_handlers 214 ≡ some set_brk_s_f =
        ap (λ (t : Handlers). t 214) is
        ∙ (configure_syscall_handlers-IsEntry nr_syscalls 214 table inside).listed set_brk_s_f (
            Memᴰ.tail (
              Memᴰ.tail
                (Memᴰ.tail (Memᴰ.tail (Memᴰ.tail (Memᴰ.tail (Memᴰ.tail (Memᴰ.head refl)))))))) in
      let fits : ltb 214 nr_syscalls ≡ true = ground arith in
      let new : (a.a0 == 0) ≡ false = ground arith in
      let old : (a'.a0 == 0) ≡ true = ground arith in
      (rw (fits, found, new) refl, rw (fits, found, old) refl)
