-- ===== src/Kernel/Handlers.antt =====
-- The handlers of the system calls, but for the two that wait.
use demandos.Prelude.{
  ℕ, zero, suc, ◌+◌, Bytes, Option, none, some, List, [], ◌∷◌, ◌==◌, ◌>>=◌, if◌then◌else◌, copy,
  put32, put64,
}
use demandos.Blk.Device.{BlockDevice}
use demandos.Memory.Arena.{malloc}
use demandos.Vring.Random.{virtio_get_randomness}
use demandos.Io.{Io}
use demandos.Io.Console.{write_stdout}
use demandos.Io.Handlers.{io_mount_hd, seek_s, read_s, write_s, close_s, openat_s}
use demandos.Kernel.{
  System, World, Outcome, returned, powered_off, no_return, system_time, buffer_at, with_buffer,
}

-- The characters of the path that `readlinkat_s` gives, and their count in the source.
abbrev pub actual_path : List ℕ
actual_path =
    47 ∷ 104 ∷ 111 ∷ 109 ∷ 101 ∷ 47 ∷ 104 ∷ 97 ∷ 119 ∷ 107 ∷ 105 ∷ 110 ∷ 115 ∷ 119 ∷ 47 ∷ 99 ∷ 111
    ∷ 100 ∷ 101 ∷ 47 ∷ 98 ∷ 111 ∷ 111 ∷ 116 ∷ 50 ∷ 98 ∷ 112 ∷ 102 ∷ 47 ∷ 98 ∷ 117 ∷ 105 ∷ 108 ∷ 100
    ∷ 47 ∷ 117 ∷ 110 ∷ 105 ∷ 98 ∷ 112 ∷ 102 ∷ 111 ∷ 114 ∷ 109 ∷ []

abbrev pub actual_path_length : ℕ
actual_path_length = 24

-- A list of bytes as a buffer, zero behind its end.
unfoldable pub bytes_of : List ℕ → Bytes
bytes_of [] j = 0
bytes_of (c ∷ cs) zero = c
bytes_of (c ∷ cs) (suc j) = bytes_of cs j

-- The string at an address, of fewer than so many characters.
unfoldable pub c_string : ℕ → Bytes → ℕ → Option (List ℕ)
c_string zero memory a = none
c_string (suc rounds) memory a =
    let rest = c_string rounds memory (a + 1) in
    if memory a == 0 then some [] else (rest >>= λ cs. some (memory a ∷ cs))

module _ {dev : BlockDevice} where
  unfoldable pub set_brk_s : System dev → ℕ → Outcome dev
  set_brk_s s new_brk =
      let s' = if new_brk == 0 then s else record s { brk = new_brk } in returned s'.brk s'

  unfoldable pub set_child_tid : System dev → ℕ → Outcome dev
  set_child_tid s tidptr = returned 1 (record s { clear_child_tid = tidptr })

  unfoldable pub hardware_riscv : System dev → Outcome dev
  hardware_riscv s = returned 0 s

  unfoldable pub empty : System dev → Outcome dev
  empty s = returned 0 s

  unfoldable pub mprotect_s : System dev → Outcome dev
  mprotect_s s = returned 0 s

  unfoldable pub ioctl_s : System dev → Outcome dev
  ioctl_s s = returned 0 s

  -- It prints on the firmware's console.
  unfoldable pub sys_breakpoint : System dev → Outcome dev
  sys_breakpoint s = returned 0 s

  -- Without ENABLE_TESTS.
  unfoldable pub internal_unit_test_s : System dev → Outcome dev
  internal_unit_test_s s = returned 0 s

  unfoldable pub poweroff_s : System dev → Outcome dev
  poweroff_s s = powered_off s

  unfoldable pub unimplemented : System dev → Outcome dev
  unimplemented s = powered_off s

  -- The size of the caller's buffer is not used.
  unfoldable pub readlinkat_s : System dev → ℕ → Outcome dev
  readlinkat_s s buf =
      returned actual_path_length
        (record s { memory = copy s.memory buf (bytes_of actual_path) 0 actual_path_length })

  unfoldable pub fstat_s : System dev → ℕ → Outcome dev
  fstat_s s statbuf =
      let m1 = put32 (put64 s.memory (statbuf + 48) 0) (statbuf + 16) 8592 in
      let m2 = put64 (put32 m1 (statbuf + 56) 1024) (statbuf + 64) 0 in
      let m3 = put64 (put64 m2 statbuf 26) (statbuf + 8) 7 in
      returned 0 (record s { memory = put32 (put32 m3 (statbuf + 20) 1) (statbuf + 24) 1 })

  -- The element that `malloc` gives is not kept.
  unfoldable pub mount_hd_s : System dev → Outcome dev
  mount_hd_s s =
      let (result, io) = io_mount_hd s.io in
      elim (malloc s.arenas s.memory 500) [
        | none ↦ powered_off s
        | some r ↦ returned result (record s { memory = r.1; io = io })
      ]

  module _ (w : World) where
    -- The bool that `system_time` returns is the result.
    unfoldable pub clock_gettime32_s : System dev → ℕ → Outcome dev
    unfolding system_time
    clock_gettime32_s s tp =
        let (sec, nsec) = system_time w in
        returned 1 (record s { memory = put64 (put64 s.memory tp sec) (tp + 8) nsec })

    unfoldable pub get_random_s : System dev → ℕ → ℕ → Outcome dev
    get_random_s s buffer length =
        elim (virtio_get_randomness w.patience w.entropy_buf w.entropy_reads w.entropy_chunks
          s.entropy_initialized s.entropy (buffer_at s.memory buffer) length) [
            | none ↦ no_return
            | some (result, bytes, ring) ↦
                returned result
                  (record s { memory = with_buffer s.memory buffer bytes; entropy = ring })
          ]

    -- A call that is about descriptors, with what it leaves of io.c's state.
    abbrev pub io_outcome : System dev → Option (ℕ × Io dev) → Outcome dev
    io_outcome s none = no_return
    io_outcome s (some (result, io)) = returned result (record s { io = io })

    -- `stdout_write_handler` for the buffer at an address.
    abbrev pub console_at : ℕ → Io dev → Bytes → ℕ → Option (ℕ × Io dev)
    console_at buf io bytes size =
        write_stdout w.patience w.console_reads io.console_initialized io.console buf size >>= λ r.
        some (r.0, record io { console = r.1 })

    unfoldable pub write_call : System dev → ℕ → ℕ → ℕ → Outcome dev
    unfolding system_time
    write_call s fd buf size =
        io_outcome s (
          write_s w.uninit (system_time w).0 (console_at buf) s.io fd (buffer_at s.memory buf) size)

    unfoldable pub read_call : System dev → ℕ → ℕ → ℕ → Outcome dev
    unfolding system_time
    read_call s fd buf size =
        elim (read_s w.uninit (system_time w).0 s.io fd (buffer_at s.memory buf) size) [
          | none ↦ no_return
          | some (result, bytes, io) ↦
              returned result (record s { io = io; memory = with_buffer s.memory buf bytes })
        ]

    unfoldable pub seek_call : System dev → ℕ → ℕ → ℕ → Outcome dev
    seek_call s fd offset whence = io_outcome s (seek_s s.io fd offset whence)

    unfoldable pub close_call : System dev → ℕ → Outcome dev
    close_call s fd = io_outcome s (some (close_s s.io fd))

    unfoldable pub openat_call : System dev → ℕ → Outcome dev
    unfolding c_string
    openat_call s pathname =
        io_outcome s (c_string w.rounds s.memory pathname >>= openat_s w.uninit s.io)
