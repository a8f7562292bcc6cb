-- ===== src/Io/Table.antt =====
-- The table of descriptors of src/io.c: which descriptor is free, and what the handlers of a
-- descriptor are from one call to the next.
use demandos.Prelude.{
  ℕ, zero, suc, ◌+◌, ◌≤◌, ◌<◌, ◌≡◌, sym, arith, true, false, Option, none, some, inl, inr,
  Bool-cases, ℕ_discrete,
}
use demandos.Blk.Device.{BlockDevice}
use demandos.Io.{Io, max_fd, next_fd_from, next_fd}

module _ {dev : BlockDevice} (io : Io dev) where
  -- What a search for a free descriptor gives: the first one that is not open, or nothing where all
  -- are open.
  pub record FindsFree (first stop : ℕ) (r : Option ℕ) : Type 0 where
    pub free :
        (fd : ℕ)
        → r ≡ some fd
        → (first ≤ fd)
          × (fd < stop)
          × ((io.fds fd).is_open ≡ false)
          × ((i : ℕ) → first ≤ i → i < fd → (io.fds i).is_open ≡ true)
    pub full : r ≡ none → (i : ℕ) → first ≤ i → i < stop → (io.fds i).is_open ≡ true

  from_next :
      (i j : ℕ)
      → (io.fds i).is_open ≡ true
      → (i + 1 ≤ j → (io.fds j).is_open ≡ true)
      → i ≤ j
      → (io.fds j).is_open ≡ true
  from_next i j now later h = elim (ℕ_discrete i j) [
    | yes e ↦ rw (sym e) now
    | no ne ↦ later (omega arith)
  ]

  next_fd_from-FindsFree : (rounds i : ℕ) → FindsFree i (i + rounds) (next_fd_from rounds io i)
  unfolding next_fd_from
  next_fd_from-FindsFree zero i = record { free = λ fd e. cc; full = λ e j h k. ground arith }
  next_fd_from-FindsFree (suc rounds) i =
      let rest = next_fd_from-FindsFree rounds (i + 1) in
      elim (Bool-cases (io.fds i).is_open) [
        | inl taken ↦ rw taken (record {
          free = λ fd e.
              let (above, below, closed, opens) = rest.free fd e in
              (
                omega arith,
                omega arith,
                closed,
                λ j h k. from_next i j taken (λ h'. opens j h' k) h,
              );
          full = λ e j h k. from_next i j taken (λ h'. rest.full e j h' (omega arith)) h;
        })
        | inr closed ↦ rw closed (record {
          free = λ fd e.
              let same : i ≡ fd = cc in
              (omega arith, omega arith, rw (sym same) closed, λ j h k. ground arith);
          full = λ e j h k. cc;
        })
      ]

  -- `next_fd` returns the lowest descriptor that is not open; it returns -1 just where all 100 are
  -- open.
  pub next_fd-FindsFree : FindsFree 0 max_fd (next_fd io)
  unfolding next_fd
  next_fd-FindsFree = next_fd_from-FindsFree max_fd 0
