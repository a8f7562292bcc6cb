-- ===== src/Tests/Calls.antt =====
-- System calls of a program on a kernel with the small disk.
use demandos.Prelude.{
  ℕ, suc, ◌+◌, ◌-◌, ap, ==_iff, ◌*◌, ◌^◌, ◌<◌, ◌≤◌, ◌≡◌, refl, arith, Bool, true, false, none,
  zeros, ltb, ◌==◌, if◌then◌else◌, w64, minus_one, ◌≢◌,
}
use demandos.Timer.{Timer}
use demandos.Io.{is_fd_valid, is_fd_open, configure_stdio}
use demandos.Io.Handlers.{write_s}
use demandos.Io.Console.{write_stdout}
use demandos.Kernel.{System, World, Outcome, returned, powered_off, no_return, Arguments}
use demandos.Kernel.Dispatch.{system_call_dispatcher, configure_syscall_handlers}
use demandos.Kernel.Table.{IsEntry}
use demandos.Kernel.Runs.{
  Calls, none_made, made, computed, IsStarted, Calls-IsSound, system_call_dispatcher_brk,
}
use demandos.Vring.Wait.{Serves}
use demandos.Kernel.Write.{system_call_dispatcher_write}
use demandos.Kernel.Demand.{grace, IsExact, demand_s-first}
use demandos.Kernel.Waiting.{demand_s}
use demandos.Kernel.Mounts.{free_elements, left_over, mounts, mounts_lem}
use demandos.Io.Sound.{IsSound}
use demandos.Tests.Devices.{ram, counting}
use demandos.Tests.Descriptors.{started, started-IsInitial}
use demandos.Tests.Sectors.{served_ring, served_ring-IsServing, third_read, third_read-Serves}

abbrev pub nr_syscalls : ℕ
nr_syscalls = 300

abbrev at_rest : Timer
at_rest = record {
  stimecmp = 2 ^ 64 - 1;
  shadow_stime = 2 ^ 64 - 1;
  deferred_wakeup = 0;
  deferred = 0;
  deferred_cookie = 0;
  asleep_wakeup = 0;
  should_wake = false;
}

abbrev pub kernel : System ram
kernel = record {
  io = configure_stdio started;
  timer = at_rest;
  brk = 65536;
  clear_child_tid = 0;
  arenas = record {
    arena_start_32 = 100000;
    arena_start_64 = 100330;
    arena_start_128 = 100980;
    arena_start_256 = 102270;
    arena_start_512 = 104840;
    arena_end_512 = 109970;
  };
  memory = zeros;
  entropy_initialized = false;
  entropy = served_ring;
  syscall_handlers = configure_syscall_handlers nr_syscalls (λ i. none);
}

-- The clock runs by 2 ^ 24 ticks from one reading to the next.
abbrev pub world : World
world = record {
  uninit = zeros;
  stime = λ n. if ltb n 100 then n * 2 ^ 24 else 0;
  interrupts = λ n t. t;
  rtc_low = 0;
  rtc_high = 5;
  patience = 10;
  console_reads = third_read 2;
  entropy_buf = 5000;
  entropy_reads = λ k. third_read 2;
  entropy_chunks = λ k. zeros;
  wakeup = λ now sec nsec. now;
  is_past = λ now top. ltb (top + grace) now;
  rounds = 50;
}

abbrev pub arguments : ℕ → ℕ → ℕ → Arguments
arguments x y z = record { a0 = x; a1 = y; a2 = z; a3 = 0; a4 = 0; a5 = 0 }

kernel-IsStarted : IsStarted nr_syscalls kernel
unfolding configure_stdio
kernel-IsStarted = record {
  io_before = started;
  table_before = λ i. none;
  nothing_open = started-IsInitial;
  stdio = refl;
  configured_handlers = refl;
  serving = served_ring-IsServing;
}

-- Five bytes at 9000 are written to the console.
abbrev written : Outcome ram
written =
    system_call_dispatcher world nr_syscalls (record kernel { brk = 70000; memory = counting }) 64
      (arguments 1 9000 5)

abbrev pub state_after : Outcome ram → System ram
state_after (returned result s) = s
state_after (powered_off s) = s
state_after no_return = kernel

abbrev is_five : Outcome ram → Bool
is_five (returned result s) = result == 5
is_five (powered_off s) = false
is_five no_return = false

written_five : is_five written ≡ true
unfolding system_call_dispatcher configure_syscall_handlers configure_stdio write_s is_fd_open
    is_fd_valid write_stdout
written_five = refl

is_five_lem : (o : Outcome ram) → is_five o ≡ true → o ≡ returned 5 (state_after o)
is_five_lem (returned result s) e = ap (λ k. returned k s) ((==_iff result 5).0 e)
is_five_lem (powered_off s) e = cc
is_five_lem no_return e = cc

-- The program moves its break, stores its bytes, and writes them.
kernel-Calls : Calls nr_syscalls kernel (state_after written)
unfolding configure_stdio
kernel-Calls =
    made world 214 (arguments 70000 0 0) 70000 (third_read-Serves 2)
      (system_call_dispatcher_brk nr_syscalls world world (λ i. none) kernel (arguments 70000 0 0)
        (arguments 0 0 0) refl (omega arith) (omega arith) refl).0
      (computed counting (
        made world 64 (arguments 1 9000 5) 5 (third_read-Serves 2)
          (is_five_lem written written_five) none_made))

Calls-IsSound_example :
    IsSound (state_after written).io
    × ((n : ℕ) → n < 300 → IsEntry n ((state_after written).syscall_handlers n))
Calls-IsSound_example =
    Calls-IsSound nr_syscalls kernel (state_after written) kernel-IsStarted kernel-Calls

ten_left : left_over kernel ≡ 10
unfolding free_elements
ten_left = refl

mounts_lem_example :
    (s' : System ram) × ((r : ℕ) × (mounts 10 kernel ≡ returned r s'))
    × (mounts (suc 10) kernel ≡ powered_off s')
mounts_lem_example = mounts_lem 10 kernel ten_left

world-IsExact : IsExact world (w64 (world.stime 0 + 7))
world-IsExact = record {
  readings = λ j. ground arith;
  small = omega arith;
  is_past_lem = λ now h. refl;
}

demand_s-first_example :
    let until = w64 (world.stime 0 + 7) in
    (k : ℕ) × (t : Timer) × (k ≤ 3)
    × (demand_s world kernel 7 ≡ returned minus_one (record kernel { timer = t }))
    × (until + grace < world.stime (k + 1))
    × ((j : ℕ) → j < k → world.stime (j + 1) ≤ until + grace)
demand_s-first_example = demand_s-first world kernel 7 3 world-IsExact (omega arith) (omega arith)

-- The program has moved its break.
abbrev moved : System ram
moved = record kernel { brk = 70000 }

brk-Calls : Calls nr_syscalls kernel moved
unfolding configure_stdio
brk-Calls =
    made world 214 (arguments 70000 0 0) 70000 (third_read-Serves 2)
      (system_call_dispatcher_brk nr_syscalls world world (λ i. none) kernel (arguments 70000 0 0)
        (arguments 0 0 0) refl (omega arith) (omega arith) refl).0
      none_made

moved-Serves : Serves world.patience moved.io.console.used_last world.console_reads
unfolding configure_stdio
moved-Serves = third_read-Serves 2

system_call_dispatcher_write_example :
    system_call_dispatcher world nr_syscalls moved 64 (arguments 1 9000 5) ≢ no_return
system_call_dispatcher_write_example =
    system_call_dispatcher_write world nr_syscalls kernel moved (arguments 1 9000 5) (omega arith)
      kernel-IsStarted brk-Calls moved-Serves
