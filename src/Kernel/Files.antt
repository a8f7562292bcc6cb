-- ===== src/Kernel/Files.antt =====
-- A program that writes a file and reads it back through the dispatcher.
use demandos.Prelude.{
  ℕ, ◌+◌, ◌-◌, ◌*◌, ◌^◌, ◌≤◌, ◌<◌, ◌≡◌, ◌∙◌, ◌⊎◌, refl, ap, ap₂, arith, inl, inr, Bytes, true,
  false, some, leb, ltb, ◌&&◌, if◌then◌else◌,
}
use demandos.Blk.Device.{BlockDevice, IsReliable}
use demandos.Ext2.Structs.{block_size}
use demandos.Io.{Io}
use demandos.Io.View.{OpenFile, splice}
use demandos.Io.View.Open.{IsView}
use demandos.Io.View.Reads.{read_s_lem}
use demandos.Io.View.Writes.{write_s_lem}
use demandos.Kernel.{
  System, World, returned, Arguments, write_s_f, read_s_f, system_time, buffer_at, with_buffer,
}
use demandos.Kernel.Handlers.{console_at, io_outcome, write_call, read_call}
use demandos.Kernel.Dispatch.{
  Handlers, assign_all, run_handler, system_call_dispatcher, configure_syscall_handlers,
}

module _ (nr_syscalls : ℕ) (table : Handlers) where
  files_assigned :
      (configure_syscall_handlers nr_syscalls table 64 ≡ some write_s_f)
      × (configure_syscall_handlers nr_syscalls table 63 ≡ some read_s_f)
  unfolding configure_syscall_handlers assign_all
  files_assigned = (refl, refl)

-- What lies `size` bytes long behind the position, after a write there.
splice_inside :
    (content : ℕ → ℕ) (pos size : ℕ) (buf : Bytes) (i : ℕ)
    → i < size
    → splice content pos size buf (pos + i) ≡ buf i
splice_inside content pos size buf i h =
    let inside : (leb pos (pos + i) && ltb (pos + i) (pos + size)) ≡ true = ground arith in
    rw inside (ap buf (omega arith))

module _ {dev : BlockDevice} (nr_syscalls : ℕ) (good : IsReliable dev) where
  dispatched :
      (w : World) (table : Handlers) (s : System dev) (a : Arguments)
      → s.syscall_handlers ≡ configure_syscall_handlers nr_syscalls table
      → 64 < nr_syscalls
      → (system_call_dispatcher w nr_syscalls s 64 a ≡ write_call w s a.a0 a.a1 a.a2)
        × (system_call_dispatcher w nr_syscalls s 63 a ≡ read_call w s a.a0 a.a1 a.a2)
  unfolding system_call_dispatcher run_handler
  dispatched w table s a is inside =
      let (writes, reads) = files_assigned nr_syscalls table in
      let found : s.syscall_handlers 64 ≡ some write_s_f = ap (λ t. t 64) is ∙ writes in
      let found' : s.syscall_handlers 63 ≡ some read_s_f = ap (λ t. t 63) is ∙ reads in
      let fits : ltb 64 nr_syscalls ≡ true = ground arith in
      let fits' : ltb 63 nr_syscalls ≡ true = ground arith in
      (rw (fits, found) refl, rw (fits', found') refl)

  write_call_lem :
      (w : World) (s : System dev) (fd blocks : ℕ) (v : OpenFile) (buf size : ℕ)
      → IsView s.io fd blocks v
      → size < 2 ^ 31
      → v.pos + size ≤ blocks * block_size
      → (io' : Io dev) × (write_call w s fd buf size ≡ returned size (record s { io = io' }))
        × IsView io' fd blocks
            (record v { content = splice v.content v.pos size (buffer_at s.memory buf) })
  unfolding write_call
  write_call_lem w s fd blocks v buf size h int_size fits =
      let (io', wrote, h', _) =
        write_s_lem w.uninit good (system_time w).0 s.io fd blocks v h (console_at w buf) size
          (buffer_at s.memory buf) (int_size, fits) in
      (io', ap (io_outcome w s) wrote, h')

  -- What a read through the dispatcher leaves in memory, the content of the file at an address.
  abbrev filled : Bytes → OpenFile → ℕ → ℕ → Bytes
  filled memory v buf size =
      with_buffer memory buf
        (λ i. if ltb i size then v.content (v.pos + i) else buffer_at memory buf i)

  filled_lem :
      (memory : Bytes) (v : OpenFile) (buf size : ℕ)
      → ((i : ℕ) → i < size → filled memory v buf size (buf + i) ≡ v.content (v.pos + i))
        × ((j : ℕ) → (j < buf) ⊎ (buf + size ≤ j) → filled memory v buf size j ≡ memory j)
  filled_lem memory v buf size = (
    λ i b.
        let behind : leb buf (buf + i) ≡ true = ground arith in
        let same : buf + i - buf ≡ i = omega arith in
        let inside : ltb i size ≡ true = ground arith in rw (behind, same, inside) refl,
    λ j out. elim out [
      | inl below ↦ let before : leb buf j ≡ false = ground arith in rw before refl
      | inr above ↦
          let behind : leb buf j ≡ true = ground arith in
          let past : ltb (j - buf) size ≡ false = ground arith in
          rw (behind, past) (ap memory (omega arith))
    ],
  )

  read_call_lem :
      (w : World) (s : System dev) (fd blocks : ℕ) (v : OpenFile) (buf size : ℕ)
      → IsView s.io fd blocks v
      → size < 2 ^ 31
      → v.pos + size ≤ blocks * block_size
      → (io' : Io dev) × (read_call w s fd buf size
          ≡ returned size (record s { io = io'; memory = filled s.memory v buf size }))
        × IsView io' fd blocks v
  unfolding read_call
  read_call_lem w s fd blocks v buf size h int_size fits =
      let (io', red, h', _) =
        read_s_lem w.uninit good (system_time w).0 s.io fd blocks v h size (buffer_at s.memory buf)
          (int_size, fits) in
      (io', rw (red, read_call) refl, h')

  -- Once the handlers are configured in a table of more than 64, on a device that does not fail, for a descriptor of a file whose
  -- mapped blocks hold a content (`IsView`), and for a size that fits an int and stays in these blocks: a
  -- write of the program through the dispatcher returns the size, and a read of as many bytes through
  -- the same descriptor after it returns the size too and leaves at its own address just the bytes that
  -- lay at the address of the write; no other byte of the program's memory changes.
  pub system_call_dispatcher_copy :
      (w w' : World) (table : Handlers) (s : System dev) (blocks : ℕ) (v : OpenFile)
      (a a' : Arguments)
      → s.syscall_handlers ≡ configure_syscall_handlers nr_syscalls table
      → 64 < nr_syscalls
      → IsView s.io a.a0 blocks v
      → a'.a0 ≡ a.a0
      → a'.a2 ≡ a.a2
      → a.a2 < 2 ^ 31
      → v.pos + a.a2 ≤ blocks * block_size
      → (s' : System dev) × (s'' : System dev) × (system_call_dispatcher w nr_syscalls s 64 a
          ≡ returned a.a2 s')
        × (system_call_dispatcher w' nr_syscalls s' 63 a' ≡ returned a.a2 s'')
        × ((i : ℕ) → i < a.a2 → s''.memory (a'.a1 + i) ≡ s.memory (a.a1 + i))
        × ((j : ℕ) → (j < a'.a1) ⊎ (a'.a1 + a.a2 ≤ j) → s''.memory j ≡ s.memory j)
  system_call_dispatcher_copy w w' table s blocks v a a' is inside h same_fd same_size int_size
        fits =
      let v' = record v { content = splice v.content v.pos a.a2 (buffer_at s.memory a.a1) } in
      let (io', wrote, h') = write_call_lem w s a.a0 blocks v a.a1 a.a2 h int_size fits in
      let s' : System dev = record s { io = io' } in
      let (io'', red, _) = read_call_lem w' s' a.a0 blocks v' a'.a1 a.a2 h' int_size fits in
      let (got, kept) = filled_lem s.memory v' a'.a1 a.a2 in
      (
        s',
        record s' { io = io''; memory = filled s.memory v' a'.a1 a.a2 },
        (dispatched w table s a is inside).0 ∙ wrote,
        (dispatched w' table s' a' is inside).1
            ∙ ap₂ (λ fd size. read_call w' s' fd a'.a1 size) same_fd same_size
            ∙ red,
        λ i b. got i b ∙ splice_inside v.content v.pos a.a2 (buffer_at s.memory a.a1) i b,
        kept,
      )
