-- ===== src/Kernel/Sound.antt =====
-- What every system call keeps, from the dispatcher down to the handlers of a descriptor.
use demandos.Prelude.{
  ℕ, ◌+◌, ◌≡◌, refl, subst, inl, inr, Bytes, Option, none, some, Bool-cases, Option-cases, ◌==◌,
  w64, le64,
}
use mathlib.Core.Option.{some-injective}
use demandos.Blk.Device.{BlockDevice}
use demandos.Memory.Arena.{malloc}
use demandos.Vring.Wait.{Serves}
use demandos.Vring.Random.{virtio_get_randomness}
use demandos.Io.{Io}
use demandos.Io.Handlers.{read_s}
use demandos.Io.Console.{write_stdout, write_stdout_kept}
use demandos.Io.Sound.{
  IsSound, io_mount_hd-IsSound, openat_s-IsSound, seek_s-IsSound, read_s-IsSound, close_s-IsSound,
  write_s-IsSound,
}
use demandos.Kernel.{
  System, World, Outcome, returned, powered_off, no_return, Arguments, SyscallHandler,
  unimplemented_f, hardware_riscv_f, empty_f, write_s_f, set_child_tid_f, poweroff_s_f, set_brk_s_f,
  readlinkat_s_f, get_random_s_f, clock_gettime32_s_f, mprotect_s_f, fstat_s_f, ioctl_s_f,
  sys_breakpoint_f, openat_s_f, close_s_f, read_s_f, seek_s_f, nanosleep_s_f, demand_s_f,
  mount_hd_s_f, internal_unit_test_s_f, system_time, buffer_at,
}
use demandos.Timer.{demand_begin, nanosleep_begin}
use demandos.Kernel.Handlers.{
  io_outcome, console_at, c_string, set_brk_s, mount_hd_s, get_random_s, write_call, read_call,
  seek_call, openat_call,
}
use demandos.Kernel.Waiting.{demand_loop, nanosleep_loop, demand_s, nanosleep_s}
use demandos.Kernel.Dispatch.{run_handler}

module _ {dev : BlockDevice} where
  -- What a call that returns makes of a state.
  abbrev pub Leaves : System dev → Outcome dev → Type 0
  Leaves s (returned result s') = IsSound s'.io × (s'.syscall_handlers ≡ s.syscall_handlers)
  Leaves s (powered_off s') = Unit {0}
  Leaves s no_return = Unit {0}

module _ {dev : BlockDevice} (w : World) where
  io_outcome-Leaves :
      (s : System dev) (o : Option (ℕ × Io dev))
      → ((r : ℕ × Io dev) → o ≡ some r → IsSound r.1)
      → Leaves s (io_outcome w s o)
  io_outcome-Leaves s none h = tt
  io_outcome-Leaves s (some r) h = (h r refl, refl)

  console_at-IsSound :
      (io : Io dev) (buf : ℕ) (bytes : Bytes) (size : ℕ) (r : ℕ × Io dev)
      → IsSound io
      → Serves w.patience io.console.used_last w.console_reads
      → console_at w buf io bytes size ≡ some r
      → IsSound r.1
  console_at-IsSound io buf bytes size r v serves =
      elim (Option-cases
        (write_stdout w.patience w.console_reads io.console_initialized io.console buf size)) [
          | inl off ↦ rw off (λ e. cc)
          | inr (q, printed) ↦ rw printed (λ e.
              subst (λ (p : ℕ × Io dev). IsSound p.1) (some-injective _ r e)
                (record {
                  table = v.table;
                  serving =
                      write_stdout_kept io.console buf size v.serving w.patience w.console_reads
                        io.console_initialized q serves printed;
                }))
        ]

  write_call-Leaves :
      (s : System dev) (fd buf size : ℕ)
      → IsSound s.io
      → Serves w.patience s.io.console.used_last w.console_reads
      → Leaves s (write_call w s fd buf size)
  unfolding write_call
  write_call-Leaves s fd buf size v serves = io_outcome-Leaves s _ (λ r.
      write_s-IsSound w.uninit (system_time w).0 (console_at w buf) s.io fd (buffer_at s.memory buf)
        size r v (λ q. console_at-IsSound s.io buf (buffer_at s.memory buf) size q v serves))

  openat_call-Leaves :
      (s : System dev) (pathname : ℕ) → IsSound s.io → Leaves s (openat_call w s pathname)
  unfolding openat_call
  openat_call-Leaves s pathname v = elim (Option-cases (c_string w.rounds s.memory pathname)) [
    | inl endless ↦ rw (endless, Leaves) tt
    | inr (path, is) ↦
        rw (is, Leaves) (io_outcome-Leaves s _ (λ r. openat_s-IsSound w.uninit s.io path r v))
  ]

  read_call-Leaves :
      (s : System dev) (fd buf size : ℕ) → IsSound s.io → Leaves s (read_call w s fd buf size)
  unfolding read_call
  read_call-Leaves s fd buf size v =
      elim (Option-cases
        (read_s w.uninit (system_time w).0 s.io fd (buffer_at s.memory buf) size)) [
          | inl null ↦ rw (null, Leaves) tt
          | inr (r, is) ↦
              rw (is, Leaves)
                (
                  read_s-IsSound w.uninit (system_time w).0 s.io fd (buffer_at s.memory buf) size r
                      v is,
                  refl,
                )
        ]

  get_random_s-Leaves :
      (s : System dev) (buffer length : ℕ)
      → IsSound s.io
      → Leaves s (get_random_s w s buffer length)
  unfolding get_random_s
  get_random_s-Leaves s buffer length v =
      elim (Option-cases (
        virtio_get_randomness w.patience w.entropy_buf w.entropy_reads w.entropy_chunks
          s.entropy_initialized s.entropy (buffer_at s.memory buffer) length)) [
            | inl off ↦ rw (off, Leaves) tt
            | inr (r, is) ↦ rw (is, Leaves) (v, refl)
          ]

  mount_hd_s-Leaves : (s : System dev) → IsSound s.io → Leaves s (mount_hd_s s)
  unfolding mount_hd_s
  mount_hd_s-Leaves s v = elim (Option-cases (malloc s.arenas s.memory 500)) [
    | inl full ↦ rw (full, Leaves) tt
    | inr (r, is) ↦ rw (is, Leaves) (io_mount_hd-IsSound s.io v, refl)
  ]

  set_brk_s-Leaves : (s : System dev) (new_brk : ℕ) → IsSound s.io → Leaves s (set_brk_s s new_brk)
  unfolding set_brk_s
  set_brk_s-Leaves s new_brk v = elim (Bool-cases (new_brk == 0)) [
    | inl asked ↦ rw (asked, Leaves) (v, refl)
    | inr given ↦ rw (given, Leaves) (v, refl)
  ]

  demand_s-Leaves : (s : System dev) (timeout : ℕ) → IsSound s.io → Leaves s (demand_s w s timeout)
  unfolding demand_s
  demand_s-Leaves s timeout v =
      elim (Option-cases (
        demand_loop w w.rounds 0 (demand_begin s.timer (w.stime 0) timeout)
          (w64 (w.stime 0 + timeout)))) [
            | inl endless ↦ rw (endless, Leaves) tt
            | inr (t, ends) ↦ rw (ends, Leaves) (v, refl)
          ]

  nanosleep_s-Leaves : (s : System dev) (duration : ℕ) → Leaves s (nanosleep_s w s duration)
  unfolding nanosleep_s
  nanosleep_s-Leaves s duration =
      elim (Option-cases (
        nanosleep_loop w w.rounds 0 (
          nanosleep_begin s.timer
            (w.wakeup (w.stime 0) (le64 s.memory duration) (le64 s.memory (duration + 8)))))) [
              | inl endless ↦ rw (endless, Leaves) tt
              | inr (t, ends) ↦ rw (ends, Leaves) tt
            ]

  pub run_handler-Leaves :
      (f : SyscallHandler) (s : System dev) (a : Arguments)
      → IsSound s.io
      → Serves w.patience s.io.console.used_last w.console_reads
      → Leaves s (run_handler w f s a)
  unfolding run_handler seek_call
  run_handler-Leaves unimplemented_f s a v serves = tt
  run_handler-Leaves hardware_riscv_f s a v serves = (v, refl)
  run_handler-Leaves empty_f s a v serves = (v, refl)
  run_handler-Leaves write_s_f s a v serves = write_call-Leaves s a.a0 a.a1 a.a2 v serves
  run_handler-Leaves set_child_tid_f s a v serves = (v, refl)
  run_handler-Leaves poweroff_s_f s a v serves = tt
  run_handler-Leaves set_brk_s_f s a v serves = set_brk_s-Leaves s a.a0 v
  run_handler-Leaves readlinkat_s_f s a v serves = (v, refl)
  run_handler-Leaves get_random_s_f s a v serves = get_random_s-Leaves s a.a0 a.a1 v
  run_handler-Leaves clock_gettime32_s_f s a v serves = (v, refl)
  run_handler-Leaves mprotect_s_f s a v serves = (v, refl)
  run_handler-Leaves fstat_s_f s a v serves = (v, refl)
  run_handler-Leaves ioctl_s_f s a v serves = (v, refl)
  run_handler-Leaves sys_breakpoint_f s a v serves = (v, refl)
  run_handler-Leaves openat_s_f s a v serves = openat_call-Leaves s a.a1 v
  run_handler-Leaves close_s_f s a v serves = (close_s-IsSound s.io a.a0 v, refl)
  run_handler-Leaves read_s_f s a v serves = read_call-Leaves s a.a0 a.a1 a.a2 v
  run_handler-Leaves seek_s_f s a v serves =
      io_outcome-Leaves s _ (λ r. seek_s-IsSound s.io a.a0 a.a1 a.a2 r v)
  run_handler-Leaves nanosleep_s_f s a v serves = nanosleep_s-Leaves s a.a2
  run_handler-Leaves demand_s_f s a v serves = demand_s-Leaves s a.a0 v
  run_handler-Leaves mount_hd_s_f s a v serves = mount_hd_s-Leaves s v
  run_handler-Leaves internal_unit_test_s_f s a v serves = (v, refl)
