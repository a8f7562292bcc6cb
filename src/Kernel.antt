-- ===== src/Kernel.antt =====
-- The system calls of src/strap_handler.c: the state that they work on, the table of handlers, and the
-- dispatcher. What the user's program has in memory is a byte at each address.
pub mod Handlers
pub mod Waiting
pub mod Dispatch
pub mod Table
pub mod Sound
pub mod Runs
pub mod Write
pub mod Files
pub mod Demand
pub mod Sleep
pub mod Mounts
pub mod SelfTest
use demandos.Prelude.{
  ℕ, ◌+◌, ◌-◌, ◌*◌, ◌/◌, ◌%◌, ◌^◌, Bytes, Bool, Option, none, some, bit_or, leb, if◌then◌else◌, w32,
}
use demandos.Blk.Device.{BlockDevice}
use demandos.Memory.Arena.{Arenas}
use demandos.Vring.{Vring}
use demandos.Io.{Io}
use demandos.Timer.{Timer}

-- The functions that an entry of `syscall_handlers` points to.
pub data SyscallHandler : Type 0 where
  unimplemented_f hardware_riscv_f empty_f write_s_f set_child_tid_f poweroff_s_f set_brk_s_f
        readlinkat_s_f get_random_s_f clock_gettime32_s_f mprotect_s_f fstat_s_f ioctl_s_f
        sys_breakpoint_f openat_s_f close_s_f read_s_f seek_s_f nanosleep_s_f demand_s_f
        mount_hd_s_f internal_unit_test_s_f :
      SyscallHandler

-- What the calls work on: io.c's state, the timer, `brk` and `clear_child_tid` of struct process, the
-- heap, the memory, the entropy device's driver, and the table of handlers, in which NULL is `none`.
pub record System (dev : BlockDevice) : Type 0 where
  pub io : Io dev
  pub timer : Timer
  pub brk : ℕ
  pub clear_child_tid : ℕ
  pub arenas : Arenas
  pub memory : Bytes
  pub entropy_initialized : Bool
  pub entropy : Vring
  pub syscall_handlers : ℕ → Option SyscallHandler

-- What a call meets in the machine while it runs: the bytes on the kernel's stack, the n-th reading of
-- `time`, what the interrupts of the n-th `yield` do to the timer, the two words of the clock, the
-- reads of the devices' counts and the bytes that the entropy device gives, the two computations on
-- doubles, and the rounds that a loop may take.
pub record World : Type 0 where
  pub uninit : Bytes
  pub stime : ℕ → ℕ
  pub interrupts : ℕ → Timer → Timer
  pub rtc_low : ℕ
  pub rtc_high : ℕ
  pub patience : ℕ
  pub console_reads : ℕ → ℕ
  pub entropy_buf : ℕ
  pub entropy_reads : ℕ → ℕ → ℕ
  pub entropy_chunks : ℕ → Bytes
  pub wakeup : ℕ → ℕ → ℕ → ℕ
  pub is_past : ℕ → ℕ → Bool
  pub rounds : ℕ

-- How a call ends: it returns, it powers the machine off, or neither (a call through a NULL pointer, an
-- assertion that fails, a device that does not answer, a loop that does not end within its rounds).
pub data Outcome (dev : BlockDevice) : Type 0 where
  returned : ℕ → System dev → Outcome dev
  powered_off : System dev → Outcome dev
  no_return : Outcome dev

-- a0 to a5
pub record Arguments : Type 0 where
  pub a0 : ℕ
  pub a1 : ℕ
  pub a2 : ℕ
  pub a3 : ℕ
  pub a4 : ℕ
  pub a5 : ℕ

-- What `system_time` stores: tv_sec and tv_nsec.
unfoldable pub system_time : World → ℕ × ℕ
system_time w =
    let time = bit_or (w32 w.rtc_high * 2 ^ 32) (w32 w.rtc_low) in (time / 10 ^ 9, time % 10 ^ 9)

-- The buffer at an address, and the memory with that buffer's bytes in its place.
abbrev pub buffer_at : Bytes → ℕ → Bytes
buffer_at memory a j = memory (a + j)

abbrev pub with_buffer : Bytes → ℕ → Bytes → Bytes
with_buffer memory a buf i = if leb a i then buf (i - a) else memory i
