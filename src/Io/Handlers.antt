-- ===== src/Io/Handlers.antt =====
-- The handlers of a file on the disk, opening, closing and mounting (src/io.c), and the system calls
-- that reach them (src/strap_handler.c).
use demandos.Prelude.{
  ℕ, ◌+◌, Bytes, true, false, Option, none, some, List, ◌==◌, ◌&&◌, not, if◌then◌else◌, ◌>>=◌, w32,
  w64, minus_one, sign_extend, put32,
}
use demandos.Blk.Device.{BlockDevice}
use demandos.Ext2.Inode.{set_atime_for_ino, set_mtime_for_ino}
use demandos.Ext2.File.{read_from_ino, write_to_ino}
use demandos.Ext2.Path.{ino_from_path}
use demandos.Ext2.Superblock.{read_superblock}
use demandos.Io.{
  Io, stdout_write_handler, disk_write_handler, disk_read_handler, disk_seek_handler, int_minus_one,
  is_fd_valid, is_fd_open, set_fd, next_fd,
}

-- SEEK_SET and SEEK_CUR; SEEK_END and all else fail.
abbrev pub seek_set : ℕ
seek_set = 0

abbrev pub seek_cur : ℕ
seek_cur = 1

-- `now` is tv_sec of `system_time`, the value that the clock gives at the call.
module _ {dev : BlockDevice} (uninit : Bytes) (now : ℕ) where
  unfoldable pub disk_write : Io dev → ℕ → Bytes → ℕ → ℕ × Io dev
  unfolding is_fd_open
  disk_write io fd buf size =
      let iod = io.fds fd in
      let (write_result, s) =
        write_to_ino dev uninit io.disk_state io.superblock iod.ino buf iod.pos size in
      let (done, s') = set_mtime_for_ino dev uninit s io.superblock iod.ino (w32 now) in
      let io' = record io { disk_state = s' } in
      if not io.blk_initialized
      then (int_minus_one, io)
      else (if not (is_fd_open io fd)
          then (int_minus_one, io)
          else (if done then (w32 write_result, io') else (int_minus_one, io')))

  unfoldable pub disk_read : Io dev → ℕ → Bytes → ℕ → ℕ × Bytes × Io dev
  unfolding is_fd_open
  disk_read io fd buf size =
      let iod = io.fds fd in
      let (read_result, buf', s) =
        read_from_ino dev uninit io.disk_state io.superblock iod.ino buf iod.pos size in
      let (done, s') = set_atime_for_ino dev uninit s io.superblock iod.ino (w32 now) in
      let io' = record io { disk_state = s' } in
      if size == 0
      then (0, buf, io)
      else (if not io.blk_initialized
          then (int_minus_one, buf, io)
          else (if not (is_fd_open io fd)
              then (int_minus_one, buf, io)
              else (if done then (w32 read_result, buf', io') else (int_minus_one, buf', io'))))

module _ {dev : BlockDevice} where
  unfoldable pub disk_seek : Io dev → ℕ → ℕ → ℕ → ℕ × Io dev
  unfolding is_fd_open
  disk_seek io fd off whence =
      let iod = io.fds fd in
      let moved = w64 (iod.pos + off) in
      if not (is_fd_open io fd)
      then (int_minus_one, io)
      else (if whence == seek_cur
          then (w32 moved, set_fd io fd (record iod { pos = moved }))
          else (if whence == seek_set
              then (w32 off, set_fd io fd (record iod { pos = off }))
              else (int_minus_one, io)))

  -- The descriptor keeps its position and its inode number.
  unfoldable pub close_fd : Io dev → ℕ → ℕ × Io dev
  unfolding is_fd_valid is_fd_open
  close_fd io fd =
      let i = sign_extend fd in
      let closed = record (io.fds i) {
        is_open = false;
        write_handler = none;
        read_handler = none;
        seek_handler = none;
      } in
      if is_fd_valid i && is_fd_open io i then (0, set_fd io i closed) else (int_minus_one, io)

  -- `none` where an assertion fails or the search of a directory never ends. The descriptor keeps the
  -- position that it had, and the result is its number also where the path names no file.
  unfoldable pub open_fd : Bytes → Io dev → List ℕ → Option (ℕ × Io dev)
  unfolding next_fd
  open_fd uninit io pathname =
      let opened = λ (fd : ℕ). record (io.fds fd) {
        is_open = true;
        write_handler = some disk_write_handler;
        read_handler = some disk_read_handler;
        seek_handler = some disk_seek_handler;
      } in
      let look_up = λ (fd : ℕ).
        ino_from_path dev uninit io.disk_state io.superblock pathname >>= λ r.
        let number : ℕ = elim (r.1) [ none ↦ (io.fds fd).ino | some n ↦ n ] in
        some
          (fd, set_fd (record io { disk_state = r.2 }) fd (record (opened fd) { ino = number })) in
      let result : Option (ℕ × Io dev) = elim (next_fd io) [
        | none ↦ some (int_minus_one, io)
        | some fd ↦ if not io.superblock_mounted then none else look_up fd
      ] in
      if not io.blk_initialized then some (int_minus_one, io) else result

  -- The result of `read_superblock` is not tested.
  unfoldable pub io_mount_hd : Io dev → ℕ × Io dev
  io_mount_hd io =
      let cleared = put32 (put32 io.superblock 4 0) 0 0 in
      let (_, superblock, s) = read_superblock dev io.disk_state cleared in
      if not io.blk_initialized
      then (minus_one, record io { superblock = cleared })
      else (0, record io { superblock = superblock; superblock_mounted = true; disk_state = s })

  -- The calls dispatch through the descriptor; `none` is a call through a NULL pointer. A write to the
  -- console is an argument.
  unfoldable pub seek_s : Io dev → ℕ → ℕ → ℕ → Option (ℕ × Io dev)
  unfolding is_fd_open disk_seek
  seek_s io fd offset whence =
      let (result, io') = disk_seek io fd offset (w32 whence) in
      if not (is_fd_open io fd) then some (minus_one, io) else (elim ((io.fds fd).seek_handler) [
        | none ↦ none
        | some disk_seek_handler ↦ some (sign_extend result, io')
      ])

  unfoldable pub read_s : Bytes → ℕ → Io dev → ℕ → Bytes → ℕ → Option (ℕ × Bytes × Io dev)
  unfolding is_fd_open disk_read
  read_s uninit now io fd buf size =
      let (result, buf', io') = disk_read uninit now io fd buf size in
      if not (is_fd_open io fd)
      then some (minus_one, buf, io)
      else (elim ((io.fds fd).read_handler) [
        | none ↦ none
        | some disk_read_handler ↦ some (sign_extend result, buf', io')
      ])

  unfoldable pub write_s :
      Bytes
      → ℕ
      → (Io dev → Bytes → ℕ → Option (ℕ × Io dev))
      → Io dev
      → ℕ
      → Bytes
      → ℕ
      → Option (ℕ × Io dev)
  unfolding is_fd_open disk_write
  write_s uninit now console io fd buf size =
      let (result, io') = disk_write uninit now io fd buf size in
      let printed = console io buf size >>= λ r. some (sign_extend r.0, r.1) in
      if not (is_fd_open io fd) then some (minus_one, io) else (elim ((io.fds fd).write_handler) [
        | none ↦ none
        | some disk_write_handler ↦ some (sign_extend result, io')
        | some stdout_write_handler ↦ printed
      ])

  unfoldable pub close_s : Io dev → ℕ → ℕ × Io dev
  unfolding close_fd
  close_s io fd = let (result, io') = close_fd io (w32 fd) in (sign_extend result, io')

  unfoldable pub openat_s : Bytes → Io dev → List ℕ → Option (ℕ × Io dev)
  unfolding open_fd
  openat_s uninit io pathname = open_fd uninit io pathname >>= λ r. some (sign_extend r.0, r.1)
