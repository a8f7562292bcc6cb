-- ===== src/Kernel/Dispatch.antt =====
-- `configure_syscall_handlers` and `system_call_dispatcher` of src/strap_handler.c.
use demandos.Prelude.{ℕ, zero, suc, Option, none, some, List, [], ◌∷◌, ltb, ◌==◌, if◌then◌else◌}
use demandos.Blk.Device.{BlockDevice}
use demandos.Kernel.{System, World, Outcome, powered_off, no_return, Arguments, SyscallHandler}
use demandos.Kernel.Handlers.{
  set_brk_s, set_child_tid, hardware_riscv, empty, mprotect_s, ioctl_s, sys_breakpoint,
  internal_unit_test_s, poweroff_s, unimplemented, readlinkat_s, fstat_s, mount_hd_s,
  clock_gettime32_s, get_random_s, write_call, read_call, seek_call, close_call, openat_call,
}
use demandos.Kernel.Waiting.{demand_s, nanosleep_s}
use demandos.Kernel.{
  unimplemented_f, hardware_riscv_f, empty_f, write_s_f, set_child_tid_f, poweroff_s_f, set_brk_s_f,
  readlinkat_s_f, get_random_s_f, clock_gettime32_s_f, mprotect_s_f, fstat_s_f, ioctl_s_f,
  sys_breakpoint_f, openat_s_f, close_s_f, read_s_f, seek_s_f, nanosleep_s_f, demand_s_f,
  mount_hd_s_f, internal_unit_test_s_f,
}

-- A table of handlers, and an assignment to one of its entries.
abbrev pub Handlers : Type 0
Handlers = ℕ → Option SyscallHandler

abbrev pub assign : Handlers → ℕ → SyscallHandler → Handlers
assign table n handler i = if i == n then some handler else table i

-- The loop that makes each entry below `n` unimplemented.
unfoldable pub all_unimplemented : ℕ → Handlers → Handlers
all_unimplemented zero table = table
all_unimplemented (suc n) table = assign (all_unimplemented n table) n unimplemented_f

-- The assignments after the loop, in their order.
abbrev pub assignments : List (ℕ × SyscallHandler)
assignments =
    (258, hardware_riscv_f)
    ∷ (222, empty_f)
    ∷ (64, write_s_f)
    ∷ (96, set_child_tid_f)
    ∷ (99, empty_f)
    ∷ (93, poweroff_s_f)
    ∷ (94, poweroff_s_f)
    ∷ (214, set_brk_s_f)
    ∷ (261, empty_f)
    ∷ (78, readlinkat_s_f)
    ∷ (278, get_random_s_f)
    ∷ (113, clock_gettime32_s_f)
    ∷ (226, mprotect_s_f)
    ∷ (80, fstat_s_f)
    ∷ (29, ioctl_s_f)
    ∷ (14, sys_breakpoint_f)
    ∷ (56, openat_s_f)
    ∷ (57, close_s_f)
    ∷ (63, read_s_f)
    ∷ (62, seek_s_f)
    ∷ (115, nanosleep_s_f)
    ∷ (209, demand_s_f)
    ∷ (210, mount_hd_s_f)
    ∷ (211, internal_unit_test_s_f)
    ∷ []

unfoldable pub assign_all : List (ℕ × SyscallHandler) → Handlers → Handlers
assign_all [] table = table
assign_all ((n, handler) ∷ rest) table = assign_all rest (assign table n handler)

-- `nr_syscalls` is __NR_syscalls, the size of the table.
unfoldable pub configure_syscall_handlers : ℕ → Handlers → Handlers
unfolding all_unimplemented assign_all
configure_syscall_handlers nr_syscalls table =
    assign_all assignments (all_unimplemented nr_syscalls table)

module _ {dev : BlockDevice} (w : World) where
  -- A call of a handler with the six arguments.
  unfoldable pub run_handler : SyscallHandler → System dev → Arguments → Outcome dev
  unfolding set_brk_s set_child_tid hardware_riscv empty mprotect_s ioctl_s sys_breakpoint
      internal_unit_test_s poweroff_s unimplemented readlinkat_s fstat_s mount_hd_s
      clock_gettime32_s get_random_s write_call read_call seek_call close_call openat_call demand_s
      nanosleep_s
  run_handler unimplemented_f s a = unimplemented s
  run_handler hardware_riscv_f s a = hardware_riscv s
  run_handler empty_f s a = empty s
  run_handler write_s_f s a = write_call w s a.a0 a.a1 a.a2
  run_handler set_child_tid_f s a = set_child_tid s a.a0
  run_handler poweroff_s_f s a = poweroff_s s
  run_handler set_brk_s_f s a = set_brk_s s a.a0
  run_handler readlinkat_s_f s a = readlinkat_s s a.a2
  run_handler get_random_s_f s a = get_random_s w s a.a0 a.a1
  run_handler clock_gettime32_s_f s a = clock_gettime32_s w s a.a1
  run_handler mprotect_s_f s a = mprotect_s s
  run_handler fstat_s_f s a = fstat_s s a.a1
  run_handler ioctl_s_f s a = ioctl_s s
  run_handler sys_breakpoint_f s a = sys_breakpoint s
  run_handler openat_s_f s a = openat_call w s a.a1
  run_handler close_s_f s a = close_call w s a.a0
  run_handler read_s_f s a = read_call w s a.a0 a.a1 a.a2
  run_handler seek_s_f s a = seek_call w s a.a0 a.a1 a.a2
  run_handler nanosleep_s_f s a = nanosleep_s w s a.a2
  run_handler demand_s_f s a = demand_s w s a.a0
  run_handler mount_hd_s_f s a = mount_hd_s s
  run_handler internal_unit_test_s_f s a = internal_unit_test_s s

  -- The number of the call, a7, is not compared with the size of the table: what lies behind it is no
  -- handler, and NULL is none either.
  unfoldable pub system_call_dispatcher : ℕ → System dev → ℕ → Arguments → Outcome dev
  unfolding run_handler
  system_call_dispatcher nr_syscalls s a7 a =
      let called : Outcome dev = elim (s.syscall_handlers a7) [
        | none ↦ no_return
        | some handler ↦ run_handler handler s a
      ] in
      if ltb a7 nr_syscalls then called else no_return

  unfoldable pub software_interrupt_handler : System dev → Outcome dev
  software_interrupt_handler s = powered_off s
