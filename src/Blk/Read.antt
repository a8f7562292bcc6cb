-- ===== src/Blk/Read.antt =====
-- What `virtio_blk_read_sync` returns, on any device and on one that does not fail.
use demandos.Prelude.{
  ℕ, zero, suc, ◌+◌, ◌-◌, ◌/◌, ◌%◌, ◌^◌, ◌≤◌, ◌<◌, ◌≡◌, ◌∙◌, refl, ap₂, dec_lt, ◌⊎◌, ◌≢◌, inl, inr,
  arith, Bytes, zeros, copy, copy_inside, copy_before, copy_after, ltb, ◌==◌, Bool-cases, w64,
  ==_iff, ltb→lt, ltb-ge,
}
use demandos.Blk.Device.{BlockDevice, sector_size, byte_at, IsReliable}
use demandos.Blk.{min_of, min_of_le, min_of_pos, read_loop, read_sync}

module _ (dev : BlockDevice) where
  open dev use {State, disk, read_sector, read_keeps, read_data}

  -- The disk is unchanged, the bytes from `start` up to the count returned are those of the disk,
  -- and no other byte of the buffer is written.
  pub record Reads (s : State) (output : Bytes) (offset start : ℕ) (r : ℕ × Bytes × State)
      : Type 0 where
    pub grows : start ≤ r.0
    pub keeps : (m j : ℕ) → disk r.2 m j ≡ disk s m j
    pub got : (i : ℕ) → start ≤ i → i < r.0 → r.1 i ≡ byte_at dev s (offset + i)
    pub frame_below : (i : ℕ) → i < start → r.1 i ≡ output i
    pub frame_above : (i : ℕ) → r.0 ≤ i → r.1 i ≡ output i

  stop-Reads :
      (s t : State) (output : Bytes) (offset amt : ℕ)
      → ((m j : ℕ) → disk t m j ≡ disk s m j)
      → Reads s output offset amt (amt, output, t)
  stop-Reads s t output offset amt keeps = record {
    grows = omega arith;
    keeps = keeps;
    got = λ i h k. absurd (omega arith);
    frame_below = λ i h. refl;
    frame_above = λ i h. refl;
  }

  -- The byte that a round puts at place `i`, for `n` bytes that end within the sector.
  round_byte :
      (s : State) (output : Bytes) (offset amt n i : ℕ)
      → offset + amt < 2 ^ 64
      → (read_sector s ((offset + amt) / sector_size) zeros).0 ≡ 0
      → n ≤ sector_size - (offset + amt) % sector_size
      → amt ≤ i
      → i < amt + n
      → copy output amt
          (read_sector s ((offset + amt) / sector_size) zeros).1
          ((offset + amt) % sector_size)
          n
          i
        ≡ byte_at dev s (offset + i)
  round_byte s output offset amt n i low ok short h k =
      let sector = (offset + amt) / sector_size in
      let place = (offset + amt) % sector_size + (i - amt) in
      let same_sector : sector ≡ (offset + i) / sector_size = omega arith in
      let same_place : place ≡ (offset + i) % sector_size = omega arith in
      copy_inside output (read_sector s sector zeros).1 amt ((offset + amt) % sector_size) n i h k
      ∙ read_data s sector zeros place (omega arith) ok (omega arith)
      ∙ ap₂ (disk s) same_sector same_place

  -- A round, followed by what reads on from where it stopped.
  round-Reads :
      (s s' : State) (output next : Bytes) (offset amt n : ℕ) (r : ℕ × Bytes × State)
      → ((m j : ℕ) → disk s' m j ≡ disk s m j)
      → ((i : ℕ) → amt ≤ i → i < amt + n → next i ≡ byte_at dev s (offset + i))
      → ((i : ℕ) → i < amt → next i ≡ output i)
      → ((i : ℕ) → amt + n ≤ i → next i ≡ output i)
      → Reads s' next offset (amt + n) r
      → Reads s output offset amt r
  round-Reads s s' output next offset amt n r keeps put below above rest = record {
    grows = omega (arith, rest.grows);
    keeps = λ m j. rest.keeps m j ∙ keeps m j;
    got = λ i h k. elim (dec_lt i (amt + n)) [
      | yes p ↦ rest.frame_below i p ∙ put i h p
      | no p ↦ rest.got i (omega arith) k ∙ keeps _ _
    ];
    frame_below = λ i h. rest.frame_below i (omega arith) ∙ below i h;
    frame_above = λ i h. rest.frame_above i h ∙ above i (omega (arith, rest.grows));
  }

  pub read_loop-Reads :
      (rounds : ℕ) (s : State) (output : Bytes) (offset size amt : ℕ)
      → offset + size ≤ 2 ^ 64
      → Reads s output offset amt (read_loop dev rounds s output offset size amt)
  unfolding read_loop
  read_loop-Reads zero s output offset size amt fits =
      stop-Reads s s output offset amt (λ m j. refl)
  read_loop-Reads (suc rounds) s output offset size amt fits = elim (Bool-cases (ltb amt size)) [
    | inr done ↦ rw done (stop-Reads s s output offset amt (λ m j. refl))
    | inl more ↦
        let lt = ltb→lt amt size more in
        let e : w64 (offset + amt) ≡ offset + amt = omega arith in
        let sector = (offset + amt) / sector_size in
        let place = (offset + amt) % sector_size in
        let n = min_of (size - amt) (sector_size - place) in
        let (status, blk, s') = read_sector s sector zeros in
        rw (more, e)
          (elim (Bool-cases (status == 0)) [
            | inr bad ↦ rw bad (stop-Reads s s' output offset amt (read_keeps s sector zeros))
            | inl ok ↦ rw ok (
                round-Reads s s' output (copy output amt blk place n) offset amt n _
                  (read_keeps s sector zeros)
                  (λ i.
                    round_byte s output offset amt n i (omega arith) ((==_iff status 0).0 ok)
                      (min_of_le (size - amt) (sector_size - place)).1)
                  (copy_before output blk amt place n) (copy_after output blk amt place n)
                  (read_loop-Reads rounds s' (copy output amt blk place n) offset size (amt + n)
                    fits))
          ])
  ]

  -- Why a read stopped: it has all the bytes, or the device failed on the sector that is next.
  abbrev pub Stops : ℕ → ℕ → ℕ → Type 0
  Stops offset size amt =
      (amt ≡ size)
      ⊎ ((amt < size)
          × ((t : State) × ((read_sector t ((offset + amt) / sector_size) zeros).0 ≢ 0)))

  read_loop-Stops :
      (rounds : ℕ) (s : State) (output : Bytes) (offset size amt : ℕ)
      → offset + size ≤ 2 ^ 64
      → amt ≤ size
      → size - amt ≤ rounds
      → Stops offset size (read_loop dev rounds s output offset size amt).0
  unfolding read_loop
  read_loop-Stops zero s output offset size amt fits h k = inl (omega arith)
  read_loop-Stops (suc rounds) s output offset size amt fits h k =
      elim (Bool-cases (ltb amt size)) [
        | inr done ↦ rw done (inl (omega (arith, ltb-ge amt size done)))
        | inl more ↦
            let lt = ltb→lt amt size more in
            let e : w64 (offset + amt) ≡ offset + amt = omega arith in
            let sector = (offset + amt) / sector_size in
            let place = (offset + amt) % sector_size in
            let n = min_of (size - amt) (sector_size - place) in
            let (status, blk, s') = read_sector s sector zeros in
            rw (more, e)
              (elim (Bool-cases (status == 0)) [
                | inr bad ↦ rw bad (inr (lt, (s, ground arith)))
                | inl ok ↦ rw ok (
                    read_loop-Stops rounds s' (copy output amt blk place n) offset size (amt + n)
                      fits (omega (arith, min_of_le (size - amt) (sector_size - place)))
                      (omega (arith, min_of_pos (size - amt) (sector_size - place))))
              ])
      ]

  -- On any device, for a range that ends by 2 ^ 64, `virtio_blk_read_sync` leaves the disk as it
  -- is, fills exactly the bytes that its result counts with the bytes of the disk from `offset`
  -- on, and counts all of them unless there is a state in which the device fails to read the
  -- sector that is next.
  pub read_sync-Reads :
      (s : State) (output : Bytes) (offset size : ℕ)
      → offset + size ≤ 2 ^ 64
      → Reads s output offset 0 (read_sync dev s output offset size)
        × Stops offset size (read_sync dev s output offset size).0
  unfolding read_sync
  read_sync-Reads s output offset size fits = (
    read_loop-Reads size s output offset size 0 fits,
    read_loop-Stops size s output offset size 0 fits (omega arith) (omega arith),
  )

  -- On a device that does not fail, for a range that ends by 2 ^ 64, `virtio_blk_read_sync`
  -- returns `size`, reads all of the bytes and writes no other place of the buffer, and the disk
  -- is as it was.
  pub read_sync_all :
      (s : State) (output : Bytes) (offset size : ℕ)
      → IsReliable dev
      → offset + size ≤ 2 ^ 64
      → let r = read_sync dev s output offset size in
        (r.0 ≡ size)
        × ((i : ℕ) → i < size → r.1 i ≡ byte_at dev s (offset + i))
        × ((i : ℕ) → size ≤ i → r.1 i ≡ output i)
        × ((m j : ℕ) → disk r.2 m j ≡ disk s m j)
  read_sync_all s output offset size good fits =
      let (reads, stops) = read_sync-Reads s output offset size fits in
      let all : (read_sync dev s output offset size).0 ≡ size = elim stops [
        | inl e ↦ e
        | inr (lt, (t, bad)) ↦ absurd (bad (good.reads t _ zeros))
      ] in
      (
        all,
        λ i h. reads.got i (omega arith) (rw all h),
        λ i h. reads.frame_above i (rw all h),
        reads.keeps,
      )
