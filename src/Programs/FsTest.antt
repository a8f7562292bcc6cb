-- ===== src/Programs/FsTest.antt =====
-- driver/fs_test_main.c: the calls of the C library's open, write, lseek and read, each of which passes
-- its arguments to the system call of that name.
use demandos.Prelude.{
  ℕ, zero, suc, ◌+◌, ◌*◌, ◌^◌, ◌<◌, ◌≡◌, refl, ap, arith, Bytes, true, false, Option, some, List,
  [], ◌∷◌, ltb, leb, ◌&&◌, Bool-cases, ltb→lt, inl, inr, if◌then◌else◌, zeros, ◌>>=◌,
}
use demandos.Blk.Device.{BlockDevice, IsReliable}
use demandos.Ext2.Structs.{block_size}
use demandos.Ext2.Path.{ino_from_path}
use demandos.Io.{Io, next_fd}
use demandos.Io.Handlers.{open_fd, openat_s}
use demandos.Io.Table.{next_fd-FindsFree}
use demandos.Io.Calls.{opened_state}
use demandos.Io.View.Opening.{IsStored, stored_file, open_fd-IsView}
use demandos.Io.View.{
  OpenFile, FileCall, file_read, file_write, file_set, Reply, reply, replies, AllFit,
}
use demandos.Io.View.Open.{system_calls, sign_extend_small}
use demandos.Io.View.Refine.{system_calls-replies}

-- "Hello, World!", and the length that strlen gives for it.
abbrev pub hello_size : ℕ
hello_size = 13

abbrev pub hello_text : List ℕ
hello_text = 72 ∷ 101 ∷ 108 ∷ 108 ∷ 111 ∷ 44 ∷ 32 ∷ 87 ∷ 111 ∷ 114 ∷ 108 ∷ 100 ∷ 33 ∷ 10 ∷ []

unfoldable pub string : List ℕ → Bytes
string [] i = 0
string (c ∷ text) zero = c
string (c ∷ text) (suc i) = string text i

-- `buffer` is what getrandom gave, and `now` the times of the five calls. `what_read` is zero before.
unfoldable pub fs_test_calls : (ℕ → ℕ) → Bytes → List (ℕ × FileCall)
fs_test_calls now buffer =
    (now 0, file_write hello_size (string hello_text))
    ∷ (now 1, file_set 15)
    ∷ (now 2, file_write 8 buffer)
    ∷ (now 3, file_set 0)
    ∷ (now 4, file_read hello_size zeros)
    ∷ []

-- What the last call leaves in its buffer.
unfoldable pub what_read : List Reply → Bytes
what_read [] = zeros
what_read ((result, buffer) ∷ []) = buffer
what_read (a ∷ b ∷ rest) = what_read (b ∷ rest)

module _ (v : OpenFile) (now : ℕ → ℕ) (buffer : Bytes) where
  fs_test_read :
      v.pos ≡ 0
      → (i : ℕ)
      → what_read (replies v (fs_test_calls now buffer)).0 i
        ≡ (if ltb i hello_size then string hello_text i else 0)
  unfolding replies reply fs_test_calls what_read
  fs_test_read start i = elim (Bool-cases (ltb i hello_size)) [
    | inr past ↦ rw past refl
    | inl inside ↦
        let lt = ltb→lt i hello_size inside in
        let before : (leb 15 (0 + i) && ltb (0 + i) (15 + 8)) ≡ false = ground arith in
        let within : (leb 0 (0 + i) && ltb (0 + i) (0 + hello_size)) ≡ true = ground arith in
        rw (inside, start, before, within) (ap (string hello_text) (omega arith))
  ]

  fs_test_AllFit :
      (blocks : ℕ)
      → v.pos ≡ 0
      → 0 < blocks
      → AllFit (blocks * block_size) v (fs_test_calls now buffer)
  unfolding AllFit reply fs_test_calls
  fs_test_AllFit blocks start some_block = (
    (omega arith, omega arith),
    (omega arith, ((omega arith, omega arith), (omega arith, ((omega arith, omega arith), tt)))),
  )

-- "testing.txt"
abbrev pub testing_path : List ℕ
testing_path = 116 ∷ 101 ∷ 115 ∷ 116 ∷ 105 ∷ 110 ∷ 103 ∷ 46 ∷ 116 ∷ 120 ∷ 116 ∷ []

module _ {dev : BlockDevice} (uninit : Bytes)
    (console : Io dev → Bytes → ℕ → Option (ℕ × Io dev)) where
  -- The program from `open` on, with what the calls behind it give.
  unfoldable pub fs_test : Io dev → (ℕ → ℕ) → Bytes → Option (List Reply × Io dev)
  unfolding fs_test_calls
  fs_test io now buffer = openat_s uninit io testing_path >>= λ r.
      system_calls uninit console r.1 r.0 (fs_test_calls now buffer)

  openat_s_lem :
      (io io' : Io dev) (path : List ℕ) (fd : ℕ)
      → fd < 2 ^ 31
      → open_fd uninit io path ≡ some (fd, io')
      → openat_s uninit io path ≡ some (fd, io')
  unfolding openat_s
  openat_s_lem io io' path fd small opens =
      rw opens (ap (λ n. some (n, io')) (sign_extend_small fd small))

  -- On a device that does not fail, with the driver running and the disk mounted, a free descriptor that
  -- stands at 0, and a file testing.txt of at least one mapped block that lies apart from its inode
  -- and the way to it: the program's calls all have results, whenever they are made and whatever bytes
  -- getrandom gave, and `what_read` holds "Hello, World!" and zeros after it at the end.
  pub fs_test-what_read :
      (good : IsReliable dev) (io : Io dev) (fd ino blocks : ℕ) (t : dev.State) (now : ℕ → ℕ)
      (buffer : Bytes)
      → io.blk_initialized ≡ true
      → io.superblock_mounted ≡ true
      → next_fd io ≡ some fd
      → (io.fds fd).pos ≡ 0
      → ino_from_path dev uninit io.disk_state io.superblock testing_path ≡ some (true, some ino, t)
      → IsStored dev io.disk_state io.superblock ino blocks
      → 0 < blocks
      → (given : List Reply) × (io' : Io dev) × (fs_test io now buffer ≡ some (given, io'))
        × ((i : ℕ) → what_read given i ≡ (if ltb i hello_size then string hello_text i else 0))
  unfolding fs_test
  fs_test-what_read good io fd ino blocks t now buffer on mounted free start walked v some_block =
      let calls = fs_test_calls now buffer in
      let file = stored_file io fd ino in
      let (opens, view) =
        open_fd-IsView io fd ino blocks uninit testing_path t on mounted free walked v in
      let (_, below, _, _) = (next_fd-FindsFree io).free fd free in
      let (io', gives, _) =
        system_calls-replies uninit good console calls (opened_state io fd ino t) fd blocks file
          view (fs_test_AllFit file now buffer blocks start some_block) in
      (
        (replies file calls).0,
        io',
        rw (openat_s_lem io (opened_state io fd ino t) testing_path fd (omega arith) opens) gives,
        fs_test_read file now buffer start,
      )
