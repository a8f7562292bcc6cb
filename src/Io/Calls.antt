-- ===== src/Io/Calls.antt =====
-- The system calls that go through the handlers of a descriptor: where they call through a NULL
-- pointer, and what opening, closing and moving do to the table.
use demandos.Prelude.{
  ℕ, ◌+◌, ◌^◌, ◌<◌, ◌≡◌, ◌≢◌, ◌↔◌, ◌∙◌, refl, ap, arith, inl, inr, Bytes, true, false, Option, none,
  some, List, Bool-cases, Option-cases, dec_lt, ℕ_discrete, ◌==◌, sign_extend, w64,
}
use demandos.Blk.Device.{BlockDevice}
use demandos.Ext2.Path.{ino_from_path}
use demandos.Io.{
  Io, IoDescriptor, stdout_write_handler, disk_write_handler, disk_read_handler, disk_seek_handler,
  max_fd, is_fd_valid, is_fd_open, set_fd, next_fd,
}
use demandos.Io.Table.{next_fd-FindsFree}
use demandos.Io.Handlers.{disk_seek, close_fd, open_fd, read_s, write_s, seek_s, seek_cur}
use demandos.Io.Laws.{IsTable}

module _ {dev : BlockDevice} where
  is_fd_open-is_open : (io : Io dev) (fd : ℕ) → is_fd_open io fd ≡ true → (io.fds fd).is_open ≡ true
  unfolding is_fd_open
  is_fd_open-is_open io fd h = ground arith

  is_fd_open-valid : (io : Io dev) (fd : ℕ) → is_fd_open io fd ≡ true → fd < max_fd
  unfolding is_fd_open is_fd_valid
  is_fd_open-valid io fd h = ground arith

  -- In a table whose handlers fit, and with a console that has a result, a write to any
  -- descriptor calls no NULL pointer: the call has a result, also where the descriptor is
  -- refused.
  pub write_s_total :
      (uninit : Bytes) (now : ℕ) (console : Io dev → Bytes → ℕ → Option (ℕ × Io dev)) (io : Io dev)
      (fd : ℕ) (buf : Bytes) (size : ℕ)
      → IsTable io
      → console io buf size ≢ none
      → write_s uninit now console io fd buf size ≢ none
  unfolding write_s
  write_s_total uninit now console io fd buf size t prints = elim (Bool-cases (is_fd_open io fd)) [
    | inr shut ↦ rw shut (λ e. cc)
    | inl opens ↦ rw opens (elim (Option-cases (io.fds fd).write_handler) [
      | inl e ↦ λ _. (t fd).open_write (is_fd_open-is_open io fd opens) e
      | inr (disk_write_handler, e) ↦ rw e (λ n. cc)
      | inr (stdout_write_handler, e) ↦ rw e (elim (Option-cases (console io buf size)) [
        | inl f ↦ λ _. prints f
        | inr (r, f) ↦ rw f (λ n. cc)
      ])
    ])
  ]

  -- In a table whose handlers fit, a read calls through a NULL pointer just where the descriptor
  -- is open and has no handler to read it, and a seek does so just there too.
  pub read_s_null :
      (uninit : Bytes) (now : ℕ) (io : Io dev) (fd : ℕ) (buf : Bytes) (size offset whence : ℕ)
      → IsTable io
      → ((read_s uninit now io fd buf size ≡ none)
          ↔ ((is_fd_open io fd ≡ true) × ((io.fds fd).read_handler ≡ none)))
        × ((read_s uninit now io fd buf size ≡ none) ↔ (seek_s io fd offset whence ≡ none))
  unfolding read_s seek_s
  read_s_null uninit now io fd buf size offset whence t = elim (Bool-cases (is_fd_open io fd)) [
    | inr shut ↦ rw shut ((λ e. cc, λ e. cc), (λ e. cc, λ e. cc))
    | inl opens ↦ rw opens (elim (Option-cases (io.fds fd).read_handler) [
      | inl e ↦ rw (e, (t fd).both.0 e) ((λ _. (refl, refl), λ _. refl), (λ _. refl, λ _. refl))
      | inr (disk_read_handler, e) ↦ rw e (elim (Option-cases (io.fds fd).seek_handler) [
        | inl f ↦ let no_reader : (io.fds fd).read_handler ≡ none = (t fd).both.1 f in cc
        | inr (disk_seek_handler, f) ↦ rw f ((λ g. cc, λ g. cc), (λ g. cc, λ g. cc))
      ])
    ])
  ]

  set_fd-same : (io : Io dev) (fd : ℕ) (d : IoDescriptor) → (set_fd io fd d).fds fd ≡ d
  set_fd-same io fd d = let e : (fd == fd) ≡ true = ground arith in rw e refl

  set_fd-other :
      (io : Io dev) (fd i : ℕ) (d : IoDescriptor) → i ≢ fd → (set_fd io fd d).fds i ≡ io.fds i
  set_fd-other io fd i d h = let e : (i == fd) ≡ false = ground arith in rw e refl

  next_fd-reopened :
      (io io' : Io dev) (fd : ℕ)
      → next_fd io ≡ some fd
      → (io'.fds fd).is_open ≡ false
      → ((i : ℕ) → i ≢ fd → io'.fds i ≡ io.fds i)
      → next_fd io' ≡ some fd
  next_fd-reopened io io' fd at shut same =
      let (_, below, _, opens) = (next_fd-FindsFree io).free fd at in
      elim (Option-cases (next_fd io')) [
        | inl full ↦ let opened = (next_fd-FindsFree io').full full fd (omega arith) below in cc
        | inr (fd', at') ↦
            let (_, below', shut', opens') = (next_fd-FindsFree io').free fd' at' in
            elim (dec_lt fd fd') [
              | yes h ↦ let opened = opens' fd (omega arith) h in cc
              | no h ↦ elim (dec_lt fd' fd) [
                | yes k ↦
                    let opened = opens fd' (omega arith) k in
                    let kept = same fd' (omega arith) in cc
                | no k ↦ rw at' (ap some (omega arith))
              ]
            ]
      ]

  is_fd_open_intro :
      (io : Io dev) (fd : ℕ) → fd < max_fd → (io.fds fd).is_open ≡ true → is_fd_open io fd ≡ true
  unfolding is_fd_open is_fd_valid
  is_fd_open_intro io fd h k = ground arith

  -- Closing an open descriptor succeeds, leaves it closed and every other one as it was.
  close_fd_lem :
      (io : Io dev) (fd : ℕ)
      → fd < max_fd
      → (io.fds fd).is_open ≡ true
      → let r = close_fd io fd in
        (r.0 ≡ 0) × ((r.1.fds fd).is_open ≡ false) × ((i : ℕ) → i ≢ fd → r.1.fds i ≡ io.fds i)
  unfolding close_fd is_fd_valid
  close_fd_lem io fd h k =
      let same : sign_extend fd ≡ fd = ground arith in
      let valid : is_fd_valid fd ≡ true = ground arith in
      rw (same, valid, k)
        (
          refl,
          ap (λ (d : IoDescriptor). d.is_open) (set_fd-same io fd _),
          λ i ne. set_fd-other io fd i _ ne,
        )

  -- The state after `open_fd` gave descriptor `fd` to the file with inode number `n`.
  abbrev pub opened_state : Io dev → ℕ → ℕ → dev.State → Io dev
  opened_state io fd n s =
      set_fd (record io { disk_state = s }) fd
        (record (io.fds fd) {
          is_open = true;
          ino = n;
          write_handler = some disk_write_handler;
          read_handler = some disk_read_handler;
          seek_handler = some disk_seek_handler;
        })

  -- With the disk mounted, a free descriptor and a path that is found, `open_fd` gives the lowest free
  -- descriptor to the file, at the position that the descriptor had; closing it then succeeds and makes
  -- it the next that `next_fd` gives.
  pub close_fd-open_fd :
      (uninit : Bytes) (io : Io dev) (path : List ℕ) (fd n : ℕ) (s : dev.State)
      → io.blk_initialized ≡ true
      → io.superblock_mounted ≡ true
      → next_fd io ≡ some fd
      → ino_from_path dev uninit io.disk_state io.superblock path ≡ some (true, some n, s)
      → let closed = close_fd (opened_state io fd n s) fd in
        (open_fd uninit io path ≡ some (fd, opened_state io fd n s))
        × (closed.0 ≡ 0)
        × (next_fd closed.1 ≡ some fd)
        × ((i : ℕ) → i ≢ fd → closed.1.fds i ≡ io.fds i)
  unfolding open_fd
  close_fd-open_fd uninit io path fd n s on mounted at walked =
      let io' = opened_state io fd n s in
      let (_, below, _, _) = (next_fd-FindsFree io).free fd at in
      let kept : (i : ℕ) → i ≢ fd → io'.fds i ≡ io.fds i =
        λ i ne. set_fd-other (record io { disk_state = s }) fd i _ ne in
      let opened : (io'.fds fd).is_open ≡ true =
        ap (λ (d : IoDescriptor). d.is_open) (set_fd-same (record io { disk_state = s }) fd _) in
      let (closes, shut, others) = close_fd_lem io' fd below opened in
      let back : (i : ℕ) → i ≢ fd → (close_fd io' fd).1.fds i ≡ io.fds i =
        λ i ne. others i ne ∙ kept i ne in
      (
        simp (on, at, mounted, walked),
        closes,
        next_fd-reopened io (close_fd io' fd).1 fd at shut back,
        back,
      )

  disk_seek_cur :
      (io : Io dev) (fd off : ℕ)
      → is_fd_open io fd ≡ true
      → (disk_seek io fd off seek_cur).1
        ≡ set_fd io fd (record (io.fds fd) { pos = w64 ((io.fds fd).pos + off) })
  unfolding disk_seek
  disk_seek_cur io fd off opens = rw opens refl

  -- A seek of an open descriptor by a distance from where it is, and then by the same distance the
  -- other way, in 64-bit words, leaves it as it was, and with it the whole table.
  disk_seek-back :
      (io : Io dev) (fd off back : ℕ)
      → is_fd_open io fd ≡ true
      → (io.fds fd).pos < 2 ^ 64
      → off + back ≡ 2 ^ 64
      → let there = (disk_seek io fd off seek_cur).1 in
        ((there.fds fd).pos ≡ w64 ((io.fds fd).pos + off))
        × ((i : ℕ) → (disk_seek there fd back seek_cur).1.fds i ≡ io.fds i)
  disk_seek-back io fd off back opens low e =
      let d = record (io.fds fd) { pos = w64 ((io.fds fd).pos + off) } in
      let there = (disk_seek io fd off seek_cur).1 in
      let moved : there.fds fd ≡ d =
        ap (λ (q : Io dev). q.fds fd) (disk_seek_cur io fd off opens) ∙ set_fd-same io fd d in
      let returned : w64 (w64 ((io.fds fd).pos + off) + back) ≡ (io.fds fd).pos = omega arith in
      let still : is_fd_open there fd ≡ true =
        is_fd_open_intro there fd (is_fd_open-valid io fd opens)
          (ap (λ (q : IoDescriptor). q.is_open) moved ∙ is_fd_open-is_open io fd opens) in
      (
        ap (λ (q : IoDescriptor). q.pos) moved,
        λ i.
            ap (λ (q : Io dev). q.fds i) (disk_seek_cur there fd back still)
            ∙ elim (ℕ_discrete i fd) [
              | no ne ↦
                  set_fd-other there fd i _ ne
                  ∙ ap (λ (q : Io dev). q.fds i) (disk_seek_cur io fd off opens)
                  ∙ set_fd-other io fd i d ne
              | yes same ↦ rw same (
                  set_fd-same there fd _
                  ∙ ap (λ (q : IoDescriptor). record q { pos = w64 (q.pos + back) }) moved
                  ∙ ap (λ p. record (io.fds fd) { pos = p }) returned)
            ],
      )
