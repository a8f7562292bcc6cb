-- ===== src/Io/Laws.antt =====
-- What the calls on descriptors do to the table's handlers, whatever the disk does.
use demandos.Prelude.{
  ℕ, ◌≡◌, ◌≢◌, refl, sym, ◌∙◌, subst, arith, inl, inr, Bytes, true, false, none, some, List,
  Bool-cases, Option-cases, ◌==◌, ◌&&◌, sign_extend,
}
use mathlib.Core.Option.{some-injective}
use demandos.Blk.Device.{BlockDevice}
use demandos.Ext2.Path.{ino_from_path}
use demandos.Io.{
  Io, IoDescriptor, stdout_write_handler, disk_write_handler, disk_read_handler, disk_seek_handler,
  int_minus_one, is_fd_valid, is_fd_open, set_fd, next_fd, configure_stdio,
}
use demandos.Io.Handlers.{disk_read, disk_write, disk_seek, close_fd, open_fd}

-- The handlers of a descriptor fit its state: a closed one has none, an open one can be written, and
-- it can be read just where it can be moved.
pub record IsFitted (d : IoDescriptor) : Type 0 where
  pub closed_write : d.is_open ≡ false → d.write_handler ≡ none
  pub closed_read : d.is_open ≡ false → d.read_handler ≡ none
  pub open_write : d.is_open ≡ true → d.write_handler ≢ none
  pub both :
      (d.read_handler ≡ none → d.seek_handler ≡ none)
      × (d.seek_handler ≡ none → d.read_handler ≡ none)

pub fits_open :
    (d : IoDescriptor) (ino : ℕ)
    → IsFitted (record d {
      is_open = true;
      ino = ino;
      write_handler = some disk_write_handler;
      read_handler = some disk_read_handler;
      seek_handler = some disk_seek_handler;
    })
fits_open d ino = record {
  closed_write = λ e. cc;
  closed_read = λ e. cc;
  open_write = λ e h. cc;
  both = (λ e. cc, λ e. cc);
}

fits_closed :
    (d : IoDescriptor)
    → IsFitted (record d {
      is_open = false;
      write_handler = none;
      read_handler = none;
      seek_handler = none;
    })
fits_closed d = record {
  closed_write = λ e. refl;
  closed_read = λ e. refl;
  open_write = λ e h. cc;
  both = (λ e. refl, λ e. refl);
}

fits_moved : (d : IoDescriptor) (p : ℕ) → IsFitted d → IsFitted (record d { pos = p })
fits_moved d p h = record {
  closed_write = h.closed_write;
  closed_read = h.closed_read;
  open_write = h.open_write;
  both = h.both;
}

fits_stdout :
    (d : IoDescriptor)
    → IsFitted d
    → IsFitted (record d { is_open = true; write_handler = some stdout_write_handler })
fits_stdout d h = record {
  closed_write = λ e. cc;
  closed_read = λ e. cc;
  open_write = λ e k. cc;
  both = h.both;
}

module _ {dev : BlockDevice} where
  abbrev pub IsTable : Io dev → Type 0
  IsTable io = (fd : ℕ) → IsFitted (io.fds fd)

  -- An assignment of a fitting descriptor leaves a table that fits.
  pub set_fd-IsTable :
      (io : Io dev) (fd : ℕ) (d : IoDescriptor) → IsTable io → IsFitted d → IsTable (set_fd io fd d)
  set_fd-IsTable io fd d t h i = elim (Bool-cases (i == fd)) [ inl e ↦ rw e h | inr e ↦ rw e (t i) ]

  -- One call on the table, with what it returns left out. A call that is refused or fails is a step as
  -- well.
  pub data Step : Io dev → Io dev → Type 0 where
    configured : {io : Io dev} → Step io (configure_stdio io)
    opened :
        {io : Io dev} (uninit : Bytes) (path : List ℕ) (r : ℕ × Io dev)
        → open_fd uninit io path ≡ some r
        → Step io r.1
    closed : {io : Io dev} (fd : ℕ) → Step io (close_fd io fd).1
    sought : {io : Io dev} (fd off whence : ℕ) → Step io (disk_seek io fd off whence).1
    red :
        {io : Io dev} (uninit : Bytes) (now fd : ℕ) (buf : Bytes) (size : ℕ)
        → Step io (disk_read uninit now io fd buf size).2
    wrote :
        {io : Io dev} (uninit : Bytes) (now fd : ℕ) (buf : Bytes) (size : ℕ)
        → Step io (disk_write uninit now io fd buf size).1

  pub disk_seek-IsTable :
      (io : Io dev) (fd off whence : ℕ) → IsTable io → IsTable (disk_seek io fd off whence).1
  unfolding disk_seek
  disk_seek-IsTable io fd off whence t = elim (Bool-cases (is_fd_open io fd)) [
    | inr shut ↦ rw shut t
    | inl open' ↦ rw open' (elim (Bool-cases (whence == 1)) [
      | inl e ↦ rw e (set_fd-IsTable io fd _ t (fits_moved _ _ (t fd)))
      | inr e ↦ rw e (elim (Bool-cases (whence == 0)) [
        | inl f ↦ rw f (set_fd-IsTable io fd _ t (fits_moved _ _ (t fd)))
        | inr f ↦ rw f t
      ])
    ])
  ]

  configure_stdio-IsTable : (io : Io dev) → IsTable io → IsTable (configure_stdio io)
  unfolding configure_stdio
  configure_stdio-IsTable io t = set_fd-IsTable io 1 _ t (fits_stdout (io.fds 1) (t 1))

  pub close_fd-IsTable : (io : Io dev) (fd : ℕ) → IsTable io → IsTable (close_fd io fd).1
  unfolding close_fd
  close_fd-IsTable io fd t =
      let i = sign_extend fd in
      elim (Bool-cases (is_fd_valid i && is_fd_open io i)) [
        | inl e ↦ rw e (set_fd-IsTable io i _ t (fits_closed (io.fds i)))
        | inr e ↦ rw e t
      ]

  pub disk_read-fds :
      (uninit : Bytes) (now : ℕ) (io : Io dev) (fd : ℕ) (buf : Bytes) (size : ℕ)
      → (disk_read uninit now io fd buf size).2.fds ≡ io.fds
  unfolding disk_read
  disk_read-fds uninit now io fd buf size = ground arith

  pub disk_write-fds :
      (uninit : Bytes) (now : ℕ) (io : Io dev) (fd : ℕ) (buf : Bytes) (size : ℕ)
      → (disk_write uninit now io fd buf size).1.fds ≡ io.fds
  unfolding disk_write
  disk_write-fds uninit now io fd buf size = ground arith

  -- What `open_fd` leaves is the state as it was, or one in which a descriptor has been opened.
  pub open_fd-result :
      (P : Io dev → Type 0) (uninit : Bytes) (io : Io dev) (path : List ℕ) (r : ℕ × Io dev)
      → P io
      → ((fd number : ℕ) (s : dev.State)
          → P (
              set_fd
                (record io { disk_state = s })
                fd
                (record (io.fds fd) {
                  is_open = true;
                  ino = number;
                  write_handler = some disk_write_handler;
                  read_handler = some disk_read_handler;
                  seek_handler = some disk_seek_handler;
                })))
      → open_fd uninit io path ≡ some r
      → P r.1
  unfolding open_fd
  open_fd-result P uninit io path r same opens =
      let is =
        λ (q : ℕ × Io dev) (e : open_fd uninit io path ≡ some q) (h : P q.1)
            (f : open_fd uninit io path ≡ some r).
          subst (λ (p : ℕ × Io dev). P p.1) (some-injective q r (sym e ∙ f)) h in
      elim (Bool-cases io.blk_initialized) [
        | inr off ↦ is (int_minus_one, io) (simp off) same
        | inl on ↦ elim (Option-cases (next_fd io)) [
          | inl full ↦ is (int_minus_one, io) (simp (on, full)) same
          | inr (fd, at) ↦ elim (Bool-cases io.superblock_mounted) [
            | inr none' ↦ λ e. let lost : open_fd uninit io path ≡ none = simp (on, at, none') in cc
            | inl mounted ↦
                elim (Option-cases (ino_from_path dev uninit io.disk_state io.superblock path)) [
                  | inl lost ↦ λ e.
                      let stuck : open_fd uninit io path ≡ none = simp (on, at, mounted, lost) in cc
                  | inr (f, walked) ↦
                      let number : ℕ = elim (f.1) [ none ↦ (io.fds fd).ino | some n ↦ n ] in
                      is (fd, _) (simp (on, at, mounted, walked)) (opens fd number f.2)
                ]
          ]
        ]
      ]

  open_fd-IsTable :
      (uninit : Bytes) (io : Io dev) (path : List ℕ) (r : ℕ × Io dev)
      → IsTable io
      → open_fd uninit io path ≡ some r
      → IsTable r.1
  open_fd-IsTable uninit io path r t = open_fd-result IsTable uninit io path r t (λ fd number s.
      set_fd-IsTable (record io { disk_state = s }) fd _ t (fits_open (io.fds fd) number))

  -- Every call keeps the handlers of every descriptor fitting.
  pub Step-IsTable : (io io' : Io dev) → Step io io' → IsTable io → IsTable io'
  Step-IsTable io io' configured t = configure_stdio-IsTable io t
  Step-IsTable io io' (opened uninit path r e) t = open_fd-IsTable uninit io path r t e
  Step-IsTable io io' (closed fd) t = close_fd-IsTable io fd t
  Step-IsTable io io' (sought fd off whence) t = disk_seek-IsTable io fd off whence t
  Step-IsTable io io' (red uninit now fd buf size) t =
      rw (disk_read-fds uninit now io fd buf size) t
  Step-IsTable io io' (wrote uninit now fd buf size) t =
      rw (disk_write-fds uninit now io fd buf size) t

  -- A run of calls.
  pub data Steps : Io dev → Io dev → Type 0 where
    done : {io : Io dev} → Steps io io
    next : {io io' io'' : Io dev} → Step io io' → Steps io' io'' → Steps io io''

  -- The table as the kernel starts with it: nothing is open and there are no handlers.
  abbrev pub IsInitial : Io dev → Type 0
  IsInitial io =
      (fd : ℕ)
      → ((io.fds fd).is_open ≡ false)
        × ((io.fds fd).write_handler ≡ none)
        × ((io.fds fd).read_handler ≡ none)
        × ((io.fds fd).seek_handler ≡ none)

  Steps-IsTable : (io io' : Io dev) → Steps io io' → IsTable io → IsTable io'
  Steps-IsTable io io' done t = t
  Steps-IsTable io io' (next {io' = between} step steps) t =
      Steps-IsTable between io' steps (Step-IsTable io between step t)

  -- After any run of calls on the descriptors from the table that the kernel starts with, a closed
  -- descriptor has no handler, an open one can be written, and it has a handler to read it just where
  -- it has one to move it.
  pub Steps-IsTable_initial : (io io' : Io dev) → IsInitial io → Steps io io' → IsTable io'
  Steps-IsTable_initial io io' start steps = Steps-IsTable io io' steps (λ fd.
      let (shut, no_write, no_read, no_seek) = start fd in
      record {
        closed_write = λ e. no_write;
        closed_read = λ e. no_read;
        open_write = λ e h. cc;
        both = (λ e. no_seek, λ e. no_read);
      })
