-- ===== src/Io.antt =====
-- src/io.c and the file system calls of src/strap_handler.c: the table of descriptors, the handlers
-- that it holds, and mounting. An int is its 32-bit pattern; as a uint64_t it is sign-extended.
pub mod Table
pub mod Handlers
pub mod Laws
pub mod Calls
pub mod Files
pub mod Written
pub mod View
pub mod Console
pub mod Sound
use demandos.Prelude.{
  ℕ, zero, suc, ◌+◌, ◌-◌, ◌^◌, Bytes, Bool, true, false, Option, none, some, ltb, ◌&&◌, not, ◌==◌,
  if◌then◌else◌,
}
use demandos.Blk.Device.{BlockDevice}
use demandos.Vring.{Vring}

-- The functions that a descriptor's handlers point to.
pub data WriteHandler : Type 0 where
  stdout_write_handler disk_write_handler : WriteHandler

pub data ReadHandler : Type 0 where
  disk_read_handler : ReadHandler

pub data SeekHandler : Type 0 where
  disk_seek_handler : SeekHandler

-- struct io_descriptor; a handler that is NULL is `none`.
pub record IoDescriptor : Type 0 where
  pub is_open : Bool
  pub pos : ℕ
  pub ino : ℕ
  pub write_handler : Option WriteHandler
  pub read_handler : Option ReadHandler
  pub seek_handler : Option SeekHandler

abbrev pub max_fd : ℕ
max_fd = 100

-- The int -1
abbrev pub int_minus_one : ℕ
int_minus_one = 2 ^ 32 - 1

-- What io.c keeps, the drivers' `initialized` flags, the state of the disk, and the second ring of the
-- console's driver.
pub record Io (dev : BlockDevice) : Type 0 where
  pub fds : ℕ → IoDescriptor
  pub superblock : Bytes
  pub superblock_mounted : Bool
  pub blk_initialized : Bool
  pub disk_state : dev.State
  pub console_initialized : Bool
  pub console : Vring

unfoldable pub is_fd_valid : ℕ → Bool
is_fd_valid fd = ltb fd max_fd

module _ {dev : BlockDevice} where
  unfoldable pub is_fd_open : Io dev → ℕ → Bool
  unfolding is_fd_valid
  is_fd_open io fd = is_fd_valid fd && (io.fds fd).is_open

  -- An assignment to fields of fds[fd].
  abbrev pub set_fd : Io dev → ℕ → IoDescriptor → Io dev
  set_fd io fd d = record io { fds = λ i. if i == fd then d else io.fds i }

  -- The loop of `next_fd` from the i-th descriptor on; `none` is the -1 of a full table.
  unfoldable pub next_fd_from : ℕ → Io dev → ℕ → Option ℕ
  next_fd_from zero io i = none
  next_fd_from (suc rounds) io i =
      let rest = next_fd_from rounds io (i + 1) in if (io.fds i).is_open then rest else some i

  unfoldable pub next_fd : Io dev → Option ℕ
  unfolding next_fd_from
  next_fd io = next_fd_from max_fd io 0

  unfoldable pub configure_stdio : Io dev → Io dev
  configure_stdio io =
      set_fd io 1 (record (io.fds 1) { is_open = true; write_handler = some stdout_write_handler })
