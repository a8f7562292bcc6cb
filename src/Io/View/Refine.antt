-- ===== src/Io/View/Refine.antt =====
-- The system calls on an open file of the disk against `OpenFile`: what a program gets from any run of
-- calls within the mapped blocks.
use demandos.Prelude.{
  ℕ, ◌+◌, ◌*◌, ◌≡◌, refl, sym, ap, arith, Bytes, true, false, Option, some, List, [], ◌∷◌, ◌==◌,
  sign_extend, w32, w64,
}
use demandos.Blk.Device.{BlockDevice, IsReliable}
use demandos.Ext2.Structs.{block_size}
use demandos.Ext2.File.Frame.{same-SameInode}
use demandos.Io.{Io, is_fd_open, set_fd}
use demandos.Io.Handlers.{disk_seek, seek_s, seek_set, seek_cur}
use demandos.Io.View.{
  OpenFile, FileCall, file_read, file_write, file_set, file_move, reply, replies, Fits, AllFit,
}
use demandos.Io.View.Reads.{read_s_lem}
use demandos.Io.View.Writes.{write_s_lem}
use demandos.Io.View.Open.{system_call, system_calls, IsView, KeepsOthers, sign_extend-w32}

module _ {dev : BlockDevice} (uninit : Bytes) (good : IsReliable dev)
    (console : Io dev → Bytes → ℕ → Option (ℕ × Io dev)) where
  -- The call gives what the file gives, and leaves a descriptor of the file that is left.
  abbrev pub Serves : ℕ → Io dev → ℕ → ℕ → OpenFile → FileCall → Type 0
  Serves now io fd blocks v c =
      (io' : Io dev) × (system_call uninit console now io fd c ≡ some ((reply v c).0, io'))
      × IsView io' fd blocks (reply v c).1
      × KeepsOthers io fd blocks io'

  module _ (now : ℕ) (io : Io dev) (fd blocks : ℕ) (v : OpenFile) (h : IsView io fd blocks v) where
    seek_s_open :
        (offset whence : ℕ)
        → let r = disk_seek io fd offset (w32 whence) in
          seek_s io fd offset whence ≡ some (sign_extend r.0, r.1)
    unfolding seek_s
    seek_s_open offset whence = ground (arith, h.opened, h.seeks)

    file_read-Serves :
        (size : ℕ) (buf : Bytes)
        → Fits (blocks * block_size) v (file_read size buf)
        → Serves now io fd blocks v (file_read size buf)
    unfolding system_call reply
    file_read-Serves size buf fits =
        let (io', red, h', left) = read_s_lem uninit good now io fd blocks v h size buf fits in
        (io', rw red refl, h', left)

    file_write-Serves :
        (size : ℕ) (buf : Bytes)
        → Fits (blocks * block_size) v (file_write size buf)
        → Serves now io fd blocks v (file_write size buf)
    unfolding system_call reply
    file_write-Serves size buf fits =
        let (io', wrote, h', left) =
          write_s_lem uninit good now io fd blocks v h console size buf fits in
        (io', rw wrote refl, h', left)

    -- A seek changes the position only.
    set_fd-IsView :
        (p : ℕ)
        → IsView (set_fd io fd (record (io.fds fd) { pos = p })) fd blocks (record v { pos = p })
    unfolding is_fd_open
    set_fd-IsView p =
        let hit : (fd == fd) ≡ true = ground arith in
        record {
          running = h.running;
          opened = rw hit h.opened;
          reads = rw hit h.reads;
          writes = rw hit h.writes;
          seeks = rw hit h.seeks;
          at = rw hit refl;
          file = rw hit h.file;
          apart = rw hit h.apart;
          inode_apart = rw hit h.inode_apart;
          holds = rw hit h.holds;
        }

    set_fd-KeepsOthers :
        (p : ℕ) → KeepsOthers io fd blocks (set_fd io fd (record (io.fds fd) { pos = p }))
    set_fd-KeepsOthers p =
        let hit : (fd == fd) ≡ true = ground arith in
        record {
          others = λ i n. let miss : (i == fd) ≡ false = ground arith in rw miss refl;
          same_ino = rw hit refl;
          same_superblock = refl;
          same_running = refl;
          still =
              same-SameInode dev io.disk_state io.disk_state io.superblock (io.fds fd).ino
                (λ m j. refl);
          elsewhere = λ q out. refl;
        }

    disk_seek_moves :
        (offset : ℕ)
        → (disk_seek io fd offset seek_set
            ≡ (w32 offset, set_fd io fd (record (io.fds fd) { pos = offset })))
          × (disk_seek io fd offset seek_cur ≡ (
            w32 (w64 (v.pos + offset)),
            set_fd io fd (record (io.fds fd) { pos = w64 (v.pos + offset) }),
          ))
    unfolding disk_seek
    disk_seek_moves offset = rw (h.opened, sym h.at) (refl, refl)

    file_set-Serves :
        (offset : ℕ)
        → Fits (blocks * block_size) v (file_set offset)
        → Serves now io fd blocks v (file_set offset)
    unfolding system_call reply
    file_set-Serves offset fits =
        rw (seek_s_open offset seek_set, (disk_seek_moves offset).0)
          (
            set_fd io fd (record (io.fds fd) { pos = offset }),
            ap (λ a. some ((a, λ i. 0), set_fd io fd (record (io.fds fd) { pos = offset })))
                (sign_extend-w32 offset fits),
            set_fd-IsView offset,
            set_fd-KeepsOthers offset,
          )

    file_move-Serves :
        (offset : ℕ)
        → Fits (blocks * block_size) v (file_move offset)
        → Serves now io fd blocks v (file_move offset)
    unfolding system_call reply
    file_move-Serves offset fits =
        rw (seek_s_open offset seek_cur, (disk_seek_moves offset).1)
          (
            set_fd io fd (record (io.fds fd) { pos = w64 (v.pos + offset) }),
            ap
                (λ a.
                  some
                    ((a, λ i. 0), set_fd io fd (record (io.fds fd) { pos = w64 (v.pos + offset) })))
                (sign_extend-w32 (w64 (v.pos + offset)) fits),
            set_fd-IsView (w64 (v.pos + offset)),
            set_fd-KeepsOthers (w64 (v.pos + offset)),
          )

    pub system_call-Serves :
        (c : FileCall) → Fits (blocks * block_size) v c → Serves now io fd blocks v c
    system_call-Serves (file_read size buf) fits = file_read-Serves size buf fits
    system_call-Serves (file_write size buf) fits = file_write-Serves size buf fits
    system_call-Serves (file_set offset) fits = file_set-Serves offset fits
    system_call-Serves (file_move offset) fits = file_move-Serves offset fits

  -- On a device that does not fail, for a descriptor of a file whose mapped blocks hold the content
  -- and lie apart from the inode and the way to it, the inode apart from that way too: any run of
  -- the system calls read, write and lseek that stays in these blocks, each at its own time, has a
  -- result, gives the program just the results and buffers that an array of bytes with a position
  -- gives, where neither a read nor a write moves the position, and ends with a descriptor of the
  -- array that is left, so that what was written before is what is read later.
  pub system_calls-replies :
      (calls : List (ℕ × FileCall)) (io : Io dev) (fd blocks : ℕ) (v : OpenFile)
      → IsView io fd blocks v
      → AllFit (blocks * block_size) v calls
      → (io' : Io dev) × (system_calls uninit console io fd calls ≡ some ((replies v calls).0, io'))
        × IsView io' fd blocks (replies v calls).1
  unfolding system_calls replies AllFit
  system_calls-replies [] io fd blocks v h fits = (io, refl, h)
  system_calls-replies ((now, c) ∷ calls) io fd blocks v h (fit, fits) =
      let (io', same, h', _) = system_call-Serves now io fd blocks v h c fit in
      let (io'', rest, h'') = system_calls-replies calls io' fd blocks (reply v c).1 h' fits in
      (io'', rw (same, rest) refl, h'')
