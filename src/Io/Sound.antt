-- ===== src/Io/Sound.antt =====
-- What each call of src/io.c keeps: handlers that fit, and a console whose ring serves.
use demandos.Prelude.{
  ℕ, ◌≡◌, refl, sym, subst, arith, inl, inr, Bytes, Option, some, List, Bool-cases, Option-cases,
  w32,
}
use mathlib.Core.Option.{some-injective}
use demandos.Blk.Device.{BlockDevice}
use demandos.Blk.Sectors.Serving.{IsServing}
use demandos.Io.{
  Io, stdout_write_handler, disk_write_handler, disk_read_handler, disk_seek_handler, is_fd_open,
}
use demandos.Io.Handlers.{
  disk_read, disk_write, disk_seek, close_fd, open_fd, io_mount_hd, seek_s, read_s, write_s,
  close_s, openat_s,
}
use demandos.Io.Laws.{
  IsTable, disk_seek-IsTable, close_fd-IsTable, open_fd-result, set_fd-IsTable, fits_open,
  disk_read-fds, disk_write-fds,
}

module _ {dev : BlockDevice} where
  -- The descriptors' handlers fit, and the console's ring serves.
  pub record IsSound (io : Io dev) : Type 0 where
    pub table : IsTable io
    pub serving : IsServing io.console

  with_table : (io io' : Io dev) → IsSound io → IsTable io' → io'.console ≡ io.console → IsSound io'
  with_table io io' v t same = record { table = t; serving = subst IsServing (sym same) v.serving }

  disk_read-console :
      (uninit : Bytes) (now : ℕ) (io : Io dev) (fd : ℕ) (buf : Bytes) (size : ℕ)
      → (disk_read uninit now io fd buf size).2.console ≡ io.console
  unfolding disk_read
  disk_read-console uninit now io fd buf size = ground arith

  disk_write-console :
      (uninit : Bytes) (now : ℕ) (io : Io dev) (fd : ℕ) (buf : Bytes) (size : ℕ)
      → (disk_write uninit now io fd buf size).1.console ≡ io.console
  unfolding disk_write
  disk_write-console uninit now io fd buf size = ground arith

  disk_seek-console :
      (io : Io dev) (fd off whence : ℕ) → (disk_seek io fd off whence).1.console ≡ io.console
  unfolding disk_seek
  disk_seek-console io fd off whence = ground arith

  close_fd-console : (io : Io dev) (fd : ℕ) → (close_fd io fd).1.console ≡ io.console
  unfolding close_fd
  close_fd-console io fd = ground arith

  pub io_mount_hd-IsSound : (io : Io dev) → IsSound io → IsSound (io_mount_hd io).1
  unfolding io_mount_hd
  io_mount_hd-IsSound io v = elim (Bool-cases io.blk_initialized) [
    | inl on ↦ rw on (with_table io _ v v.table refl)
    | inr off ↦ rw off (with_table io _ v v.table refl)
  ]

  open_fd-IsSound :
      (uninit : Bytes) (io : Io dev) (path : List ℕ) (r : ℕ × Io dev)
      → IsSound io
      → open_fd uninit io path ≡ some r
      → IsSound r.1
  open_fd-IsSound uninit io path r v = open_fd-result IsSound uninit io path r v (λ fd number s.
      with_table io _ v
        (set_fd-IsTable (record io { disk_state = s }) fd _ v.table (fits_open (io.fds fd) number))
        refl)

  pub openat_s-IsSound :
      (uninit : Bytes) (io : Io dev) (path : List ℕ) (r : ℕ × Io dev)
      → IsSound io
      → openat_s uninit io path ≡ some r
      → IsSound r.1
  unfolding openat_s
  openat_s-IsSound uninit io path r v = elim (Option-cases (open_fd uninit io path)) [
    | inl lost ↦ rw lost (λ e. cc)
    | inr (q, opened) ↦ rw opened (λ e.
        subst (λ (p : ℕ × Io dev). IsSound p.1) (some-injective _ r e)
          (open_fd-IsSound uninit io path q v opened))
  ]

  pub seek_s-IsSound :
      (io : Io dev) (fd offset whence : ℕ) (r : ℕ × Io dev)
      → IsSound io
      → seek_s io fd offset whence ≡ some r
      → IsSound r.1
  unfolding seek_s
  seek_s-IsSound io fd offset whence r v = elim (Bool-cases (is_fd_open io fd)) [
    | inr shut ↦ rw shut (λ e. subst (λ (p : ℕ × Io dev). IsSound p.1) (some-injective _ r e) v)
    | inl opens ↦ rw opens (elim (Option-cases (io.fds fd).seek_handler) [
      | inl null ↦ rw null (λ e. cc)
      | inr (disk_seek_handler, is) ↦ rw is (λ e.
          subst (λ (p : ℕ × Io dev). IsSound p.1) (some-injective _ r e)
            (with_table io _ v (disk_seek-IsTable io fd offset (w32 whence) v.table)
              (disk_seek-console io fd offset (w32 whence))))
    ])
  ]

  pub read_s-IsSound :
      (uninit : Bytes) (now : ℕ) (io : Io dev) (fd : ℕ) (buf : Bytes) (size : ℕ)
      (r : ℕ × Bytes × Io dev)
      → IsSound io
      → read_s uninit now io fd buf size ≡ some r
      → IsSound r.2
  unfolding read_s
  read_s-IsSound uninit now io fd buf size r v = elim (Bool-cases (is_fd_open io fd)) [
    | inr shut ↦
        rw shut (λ e. subst (λ (p : ℕ × Bytes × Io dev). IsSound p.2) (some-injective _ r e) v)
    | inl opens ↦ rw opens (elim (Option-cases (io.fds fd).read_handler) [
      | inl null ↦ rw null (λ e. cc)
      | inr (disk_read_handler, is) ↦ rw is (λ e.
          subst (λ (p : ℕ × Bytes × Io dev). IsSound p.2) (some-injective _ r e)
            (with_table io _ v (rw (disk_read-fds uninit now io fd buf size) v.table)
              (disk_read-console uninit now io fd buf size)))
    ])
  ]

  pub close_s-IsSound : (io : Io dev) (fd : ℕ) → IsSound io → IsSound (close_s io fd).1
  unfolding close_s
  close_s-IsSound io fd v =
      with_table io _ v (close_fd-IsTable io (w32 fd) v.table) (close_fd-console io (w32 fd))

  -- `console` is what a write to the console does.
  pub write_s-IsSound :
      (uninit : Bytes) (now : ℕ) (console : Io dev → Bytes → ℕ → Option (ℕ × Io dev)) (io : Io dev)
      (fd : ℕ) (buf : Bytes) (size : ℕ) (r : ℕ × Io dev)
      → IsSound io
      → ((q : ℕ × Io dev) → console io buf size ≡ some q → IsSound q.1)
      → write_s uninit now console io fd buf size ≡ some r
      → IsSound r.1
  unfolding write_s
  write_s-IsSound uninit now console io fd buf size r v prints =
      elim (Bool-cases (is_fd_open io fd)) [
        | inr shut ↦ rw shut (λ e. subst (λ (p : ℕ × Io dev). IsSound p.1) (some-injective _ r e) v)
        | inl opens ↦ rw opens (elim (Option-cases (io.fds fd).write_handler) [
          | inl null ↦ rw null (λ e. cc)
          | inr (disk_write_handler, is) ↦ rw is (λ e.
              subst (λ (p : ℕ × Io dev). IsSound p.1) (some-injective _ r e)
                (with_table io _ v (rw (disk_write-fds uninit now io fd buf size) v.table)
                  (disk_write-console uninit now io fd buf size)))
          | inr (stdout_write_handler, is) ↦ rw is (elim (Option-cases (console io buf size)) [
            | inl off ↦ rw off (λ e. cc)
            | inr (q, printed) ↦ rw printed (λ e.
                subst (λ (p : ℕ × Io dev). IsSound p.1) (some-injective _ r e) (prints q printed))
          ])
        ])
      ]
