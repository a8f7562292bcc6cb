-- ===== src/Kernel/Write.antt =====
-- That a program's write always comes back from the kernel.
use demandos.Prelude.{
  ℕ, ◌<◌, ◌≡◌, ◌≢◌, refl, arith, inl, inr, Bytes, true, Option, none, some, Bool-cases, ltb,
}
use mathlib.Core.List.Memᴰ
use demandos.Blk.Device.{BlockDevice}
use demandos.Vring.Wait.{Serves}
use demandos.Io.{Io}
use demandos.Io.Calls.{write_s_total}
use demandos.Io.Console.{write_stdout, write_stdout_total}
use demandos.Io.Sound.{IsSound}
use demandos.Kernel.{System, World, no_return, Arguments, write_s_f, system_time, buffer_at}
use demandos.Kernel.Handlers.{console_at, io_outcome, write_call}
use demandos.Kernel.Dispatch.{run_handler, system_call_dispatcher}
use demandos.Kernel.Runs.{Calls, IsStarted, Calls-IsSound}

module _ {dev : BlockDevice} (w : World) where
  console_at_total :
      (io : Io dev) (buf : ℕ) (bytes : Bytes) (size : ℕ)
      → IsSound io
      → Serves w.patience io.console.used_last w.console_reads
      → console_at w buf io bytes size ≢ none
  unfolding write_stdout
  console_at_total io buf bytes size v serves = elim (Bool-cases io.console_initialized) [
    | inr off ↦ rw off (λ e. cc)
    | inl on ↦
        let (after, ends, again) =
          write_stdout_total io.console buf size v.serving w.patience w.console_reads serves in
        rw (on, ends) (λ e. cc)
  ]

  io_outcome-returns :
      (s : System dev) (o : Option (ℕ × Io dev)) → o ≢ none → io_outcome w s o ≢ no_return
  io_outcome-returns s none h = λ e. h refl
  io_outcome-returns s (some r) h = λ e. cc

  -- After any run of system calls from a system that has been started, a write with any arguments, on a
  -- console whose device counts it, does not end in a call through a NULL pointer, in a failed assertion
  -- or in a wait for ever.
  pub system_call_dispatcher_write :
      (nr_syscalls : ℕ) (s s' : System dev) (a : Arguments)
      → 64 < nr_syscalls
      → IsStarted nr_syscalls s
      → Calls nr_syscalls s s'
      → Serves w.patience s'.io.console.used_last w.console_reads
      → system_call_dispatcher w nr_syscalls s' 64 a ≢ no_return
  unfolding system_call_dispatcher run_handler write_call
  system_call_dispatcher_write nr_syscalls s s' a inside started calls serves =
      let (v, entries) = Calls-IsSound nr_syscalls s s' started calls in
      let found : s'.syscall_handlers 64 ≡ some write_s_f =
        (entries 64 inside).listed write_s_f (Memᴰ.tail (Memᴰ.tail (Memᴰ.head refl))) in
      let fits : ltb 64 nr_syscalls ≡ true = ground arith in
      rw (fits, found)
        (io_outcome-returns s' _ (
          write_s_total w.uninit (system_time w).0 (console_at w a.a1) s'.io a.a0
            (buffer_at s'.memory a.a1) a.a2 v.table
            (console_at_total s'.io a.a1 (buffer_at s'.memory a.a1) a.a2 v serves)))
