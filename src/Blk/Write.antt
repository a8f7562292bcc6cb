-- ===== src/Blk/Write.antt =====
-- What `virtio_blk_write_sync` does to the disk.
use demandos.Prelude.{
  ℕ, zero, suc, ◌+◌, ◌-◌, ◌/◌, ◌%◌, ◌^◌, ◌≤◌, ◌<◌, ◌≡◌, ◌∙◌, refl, ap, ap₂, dec_lt, ◌⊎◌, ◌≢◌, inl,
  inr, arith, Bytes, zeros, copy, copy_inside, copy_before, copy_after, ltb, ◌==◌, Bool-cases, w64,
  ==_iff, ltb→lt, ltb-ge, ℕ_discrete, sym,
}
use demandos.Blk.Device.{BlockDevice, sector_size, byte_at, IsReliable}
use demandos.Blk.{min_of, min_of_le, min_of_cases, min_of_pos, write_loop, write_sync}

module _ (dev : BlockDevice) where
  open dev use {
    State, disk, read_sector, write_sector, read_keeps, read_data, write_data, write_other,
  }

  -- The disk after a round that read `sector`, changed `n` bytes from `place` on and wrote it.
  module _ (s : State) (input : Bytes) (offset amt n : ℕ) where
    abbrev sector : ℕ
    sector = (offset + amt) / sector_size

    abbrev place : ℕ
    place = (offset + amt) % sector_size

    abbrev read_back : ℕ × Bytes × State
    read_back = read_sector s sector zeros

    abbrev changed : Bytes
    changed = copy read_back.1 place input amt n

    abbrev wrote : ℕ × State
    wrote = write_sector read_back.2 sector changed

    -- Whatever the status, the other sectors are as they were.
    round_elsewhere :
        (p : ℕ)
        → offset + amt < 2 ^ 64
        → p / sector_size ≢ sector
        → byte_at dev wrote.1 p ≡ byte_at dev s p
    round_elsewhere p low h =
        write_other read_back.2 sector changed (p / sector_size) (p % sector_size) (omega arith) h
        ∙ read_keeps s sector zeros (p / sector_size) (p % sector_size)

    round_put :
        (i : ℕ)
        → offset + amt < 2 ^ 64
        → wrote.0 ≡ 0
        → n ≤ sector_size - place
        → amt ≤ i
        → i < amt + n
        → byte_at dev wrote.1 (offset + i) ≡ input i
    round_put i low ok short h k =
        let same_sector : (offset + i) / sector_size ≡ sector = omega arith in
        let same_place : (offset + i) % sector_size ≡ place + (i - amt) = omega arith in
        let back : amt + (place + (i - amt) - place) ≡ i = omega arith in
        ap₂ (disk wrote.1) same_sector same_place
        ∙ write_data read_back.2 sector changed (place + (i - amt)) (omega arith) ok (omega arith)
        ∙ copy_inside read_back.1 input place amt n (place + (i - amt)) (omega arith) (omega arith)
        ∙ ap input back

    round_frame :
        (p : ℕ)
        → offset + amt < 2 ^ 64
        → read_back.0 ≡ 0
        → wrote.0 ≡ 0
        → n ≤ sector_size - place
        → (p < offset + amt) ⊎ (offset + amt + n ≤ p)
        → byte_at dev wrote.1 p ≡ byte_at dev s p
    round_frame p low red ok short out = elim (ℕ_discrete (p / sector_size) sector) [
      | no h ↦ round_elsewhere p low h
      | yes e ↦
          let j = p % sector_size in
          let untouched : changed j ≡ read_back.1 j = elim out [
            | inl h ↦ copy_before read_back.1 input place amt n j (omega arith)
            | inr h ↦ copy_after read_back.1 input place amt n j (omega arith)
          ] in
          ap (λ q. disk wrote.1 q j) e
          ∙ write_data read_back.2 sector changed j (omega arith) ok (omega arith)
          ∙ untouched
          ∙ read_data s sector zeros j (omega arith) red (omega arith)
          ∙ ap (λ q. disk s q j) (sym e)
    ]

  -- Of a byte in the sector where a write stopped short nothing is known.
  abbrev pub Settled : ℕ → ℕ → ℕ → ℕ → Type 0
  Settled offset size amt p = (amt ≡ size) ⊎ (p / sector_size ≢ (offset + amt) / sector_size)

  -- The bytes from `start` up to the count returned are on the disk, and those of the disk
  -- outside are as they were.
  pub record Writes (s : State) (input : Bytes) (offset size start : ℕ) (r : ℕ × State)
      : Type 0 where
    pub grows : start ≤ r.0
    pub within : r.0 ≤ size
    pub put : (i : ℕ) → start ≤ i → i < r.0 → byte_at dev r.1 (offset + i) ≡ input i
    pub frame_below :
        (p : ℕ)
        → p < offset + start
        → Settled offset size r.0 p
        → byte_at dev r.1 p ≡ byte_at dev s p
    pub frame_above :
        (p : ℕ) → offset + r.0 ≤ p → Settled offset size r.0 p → byte_at dev r.1 p ≡ byte_at dev s p

  finished-Writes :
      (s : State) (input : Bytes) (offset size amt : ℕ)
      → amt ≡ size
      → Writes s input offset size amt (amt, s)
  finished-Writes s input offset size amt full = record {
    grows = omega arith;
    within = omega arith;
    put = λ i h k. absurd (omega arith);
    frame_below = λ p h e. refl;
    frame_above = λ p h e. refl;
  }

  -- A round that stops, having changed at most its own sector.
  stop-Writes :
      (s t : State) (input : Bytes) (offset size amt : ℕ)
      → amt < size
      → ((p : ℕ)
          → p / sector_size ≢ (offset + amt) / sector_size
          → byte_at dev t p ≡ byte_at dev s p)
      → Writes s input offset size amt (amt, t)
  stop-Writes s t input offset size amt lt other = record {
    grows = omega arith;
    within = omega arith;
    put = λ i h k. absurd (omega arith);
    frame_below = λ p h e. elim e [ inl full ↦ absurd (omega arith) | inr ne ↦ other p ne ];
    frame_above = λ p h e. elim e [ inl full ↦ absurd (omega arith) | inr ne ↦ other p ne ];
  }

  -- What a full round wrote is not in the sector where a later round stops short.
  round-Settled :
      (offset size amt n r i : ℕ)
      → n ≡ min_of (size - amt) (sector_size - (offset + amt) % sector_size)
      → amt + n ≤ r
      → r ≤ size
      → i < amt + n
      → Settled offset size r (offset + i)
  round-Settled offset size amt n r i e low high h = elim (ℕ_discrete r size) [
    | yes full ↦ inl full
    | no short ↦ inr (λ same.
        elim (min_of_cases (size - amt) (sector_size - (offset + amt) % sector_size)) [
          | inl a ↦ omega arith
          | inr b ↦ omega arith
        ])
  ]

  -- A round that wrote, followed by what writes on from where it stopped.
  round-Writes :
      (s : State) (input : Bytes) (offset size amt n : ℕ) (r : ℕ × State)
      → offset + amt < 2 ^ 64
      → amt < size
      → n ≡ min_of (size - amt) (sector_size - (offset + amt) % sector_size)
      → (read_back s input offset amt n).0 ≡ 0
      → (wrote s input offset amt n).0 ≡ 0
      → Writes (wrote s input offset amt n).1 input offset size (amt + n) r
      → Writes s input offset size amt r
  round-Writes s input offset size amt n r low lt e red ok rest =
      let bounds = min_of_le (size - amt) (sector_size - (offset + amt) % sector_size) in
      let short : n ≤ sector_size - (offset + amt) % sector_size = omega arith in
      record {
        grows = omega (arith, rest.grows);
        within = rest.within;
        put = λ i h k. elim (dec_lt i (amt + n)) [
          | yes p ↦
              rest.frame_below (offset + i) (omega arith)
                (round-Settled offset size amt n r.0 i e rest.grows rest.within p)
              ∙ round_put s input offset amt n i low ok short h p
          | no p ↦ rest.put i (omega arith) k
        ];
        frame_below = λ p h settled.
            rest.frame_below p (omega arith) settled
            ∙ round_frame s input offset amt n p low red ok short (inl h);
        frame_above = λ p h settled.
            rest.frame_above p h settled
            ∙ round_frame s input offset amt n p low red ok short (inr (omega (arith, rest.grows)));
      }

  write_loop-Writes :
      (rounds : ℕ) (s : State) (input : Bytes) (offset size amt : ℕ)
      → offset + size ≤ 2 ^ 64
      → amt ≤ size
      → size - amt ≤ rounds
      → Writes s input offset size amt (write_loop dev rounds s input offset size amt)
  unfolding write_loop
  write_loop-Writes zero s input offset size amt fits h k =
      finished-Writes s input offset size amt (omega arith)
  write_loop-Writes (suc rounds) s input offset size amt fits h k =
      elim (Bool-cases (ltb amt size)) [
        | inr done ↦
            rw done (finished-Writes s input offset size amt (omega (arith, ltb-ge amt size done)))
        | inl more ↦
            let lt = ltb→lt amt size more in
            let e : w64 (offset + amt) ≡ offset + amt = omega arith in
            let sec = (offset + amt) / sector_size in
            let plc = (offset + amt) % sector_size in
            let n = min_of (size - amt) (sector_size - plc) in
            rw (more, e)
              (elim (Bool-cases ((read_back s input offset amt n).0 == 0)) [
                | inr bad ↦ rw bad (
                    stop-Writes s _ input offset size amt lt
                      (λ p _. read_keeps s sec zeros (p / sector_size) (p % sector_size)))
                | inl red ↦ rw red (elim (Bool-cases ((wrote s input offset amt n).0 == 0)) [
                  | inr bad ↦ rw bad (
                      stop-Writes s _ input offset size amt lt
                        (λ p. round_elsewhere s input offset amt n p (omega arith)))
                  | inl ok ↦ rw ok (
                      round-Writes s input offset size amt n _ (omega arith) lt refl
                        ((==_iff _ 0).0 red) ((==_iff _ 0).0 ok)
                        (write_loop-Writes rounds (wrote s input offset amt n).1 input offset size
                          (amt + n) fits (omega (arith, min_of_le (size - amt) (sector_size - plc)))
                          (omega (arith, min_of_pos (size - amt) (sector_size - plc)))))
                ])
              ])
      ]

  write_loop_full :
      (rounds : ℕ) (s : State) (input : Bytes) (offset size amt : ℕ)
      → IsReliable dev
      → amt ≤ size
      → size - amt ≤ rounds
      → (write_loop dev rounds s input offset size amt).0 ≡ size
  unfolding write_loop
  write_loop_full zero s input offset size amt good h k = omega arith
  write_loop_full (suc rounds) s input offset size amt good h k =
      let pos = w64 (offset + amt) in
      let sec = pos / sector_size in
      let plc = pos % sector_size in
      let n = min_of (size - amt) (sector_size - plc) in
      let (_, blk, t) = read_sector s sec zeros in
      let after = (write_sector t sec (copy blk plc input amt n)).1 in
      elim (Bool-cases (ltb amt size)) [
        | inr done ↦ rw done (omega (arith, ltb-ge amt size done))
        | inl more ↦
            let lt = ltb→lt amt size more in
            rw (more, good.reads s sec zeros, good.writes t sec (copy blk plc input amt n))
              (write_loop_full rounds after input offset size (amt + n) good
                (omega (arith, min_of_le (size - amt) (sector_size - plc)))
                (omega (arith, min_of_pos (size - amt) (sector_size - plc))))
      ]

  -- On any device, for a range that ends by 2 ^ 64, `virtio_blk_write_sync` returns at most
  -- `size`, the bytes that it counts are on the disk from `offset` on, and every other byte is as
  -- it was, but for those of the one sector at which a short write stopped.
  pub write_sync-Writes :
      (s : State) (input : Bytes) (offset size : ℕ)
      → offset + size ≤ 2 ^ 64
      → Writes s input offset size 0 (write_sync dev s input offset size)
  unfolding write_sync
  write_sync-Writes s input offset size fits =
      write_loop-Writes size s input offset size 0 fits (omega arith) (omega arith)

  -- On a device that does not fail, for a range that ends by 2 ^ 64, `virtio_blk_write_sync`
  -- returns `size`, puts the `size` bytes on the disk, also across sectors, and changes no other
  -- byte.
  pub write_sync_all :
      (s : State) (input : Bytes) (offset size : ℕ)
      → IsReliable dev
      → offset + size ≤ 2 ^ 64
      → let r = write_sync dev s input offset size in
        (r.0 ≡ size)
        × ((i : ℕ) → i < size → byte_at dev r.1 (offset + i) ≡ input i)
        × ((p : ℕ) → (p < offset) ⊎ (offset + size ≤ p) → byte_at dev r.1 p ≡ byte_at dev s p)
  unfolding write_sync
  write_sync_all s input offset size good fits =
      let w = write_sync-Writes s input offset size fits in
      let full : (write_sync dev s input offset size).0 ≡ size =
        write_loop_full size s input offset size 0 good (omega arith) (omega arith) in
      (
        full,
        λ i h. w.put i (omega arith) (rw full h),
        λ p out. elim out [
          | inl h ↦ w.frame_below p (omega arith) (inl full)
          | inr h ↦ w.frame_above p (rw full h) (inl full)
        ],
      )
