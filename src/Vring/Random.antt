-- ===== src/Vring/Random.antt =====
-- `virtio_get_randomness` (src/virtio.c): a buffer is filled in chunks of eight bytes, each asked of
-- the entropy device by a request.
use demandos.Prelude.{
  ℕ, zero, suc, ◌+◌, ◌-◌, ◌*◌, ◌/◌, ◌%◌, ◌^◌, ◌≤◌, ◌<◌, ◌≡◌, ◌⊎◌, ◌∙◌, inl, inr, refl, ap₂, arith,
  dec_lt, Bytes, Bool, true, Bool-cases, Option, some, ◌>>=◌, zeros, copy, copy_inside, copy_before,
  copy_after, ltb, ltb→lt, if◌then◌else◌, w16, w64, minus_one,
}
use demandos.Vring.{Vring, filled, vring_use_descr}
use demandos.Vring.Added.{IsReady}
use demandos.Vring.Wait.{Serves}
use demandos.Vring.Entropy.{chunk_size, request_chunk, Slots, IsWaiting, request_chunk-IsWaiting}

-- The `for` loop. In the k-th request the device's count is read as `reads k`, and the device has the
-- bytes `chunks k`. A round moves on by eight bytes, so `length` rounds are enough.
module _ (patience buf : ℕ) (reads : ℕ → ℕ → ℕ) (chunks : ℕ → Bytes) where
  unfoldable pub fill_chunks : ℕ → ℕ → Vring → ℕ → Bytes → Bytes → ℕ → ℕ → Option (Bytes × Vring)
  unfolding request_chunk
  fill_chunks zero k v next held buffer filled length = some (buffer, v)
  fill_chunks (suc rounds) k v next held buffer filled length =
      let amt_to_copy = if ltb (length - filled) chunk_size then length - filled else chunk_size in
      let rest = do
        (next', held', v') ← request_chunk patience (reads k) (chunks k) buf v next held
        fill_chunks rounds (k + 1) v' next' held' (copy buffer filled held' 0 amt_to_copy)
            (w64 (filled + chunk_size)) length
      in if ltb filled length then rest else some (buffer, v)

  -- The chunk is zero at first.
  unfoldable pub virtio_get_randomness : Bool → Vring → Bytes → ℕ → Option (ℕ × Bytes × Vring)
  unfolding fill_chunks vring_use_descr
  virtio_get_randomness initialized v buffer length =
      let filled = do
        (buffer', v') ← fill_chunks length 0 v (vring_use_descr v) zeros buffer 0 length
        some (length, buffer', v')
      in if initialized then filled else some (minus_one, buffer, v)

-- What filling a buffer gives: the bytes of the chunks one after the other, up to the length.
pub record Fills (chunks : ℕ → Bytes) (buffer : Bytes) (filled length : ℕ) (buffer' : Bytes)
    : Type 0 where
  pub random :
      (i : ℕ) → filled ≤ i → i < length → buffer' i ≡ chunks (i / chunk_size) (i % chunk_size)
  pub below : (i : ℕ) → i < filled → buffer' i ≡ buffer i
  pub above : (i : ℕ) → length ≤ i → buffer' i ≡ buffer i

module _ (patience buf : ℕ) (reads : ℕ → ℕ → ℕ) (chunks : ℕ → Bytes) (start : ℕ)
    (low : buf < 2 ^ 64) (serves : (k : ℕ) → Serves patience (w16 (start + k)) (reads k)) where
  -- The bytes of a chunk, and then those of the later ones.
  Fills-chunk :
      (k filled length amt : ℕ) (held buffer buffer' : Bytes)
      → ((j : ℕ) → j < chunk_size → held j ≡ chunks k j)
      → filled ≡ k * chunk_size
      → filled < length
      → ((amt ≡ chunk_size) × (filled + amt ≤ length))
        ⊎ ((amt < chunk_size) × (filled + amt ≡ length))
      → Fills chunks (copy buffer filled held 0 amt) (filled + chunk_size) length buffer'
      → Fills chunks buffer filled length buffer'
  Fills-chunk k filled length amt held buffer buffer' got at more part rest = record {
    random = λ i low high. elim (dec_lt i (filled + chunk_size)) [
      | yes h ↦
          let place : 0 + (i - filled) ≡ i % chunk_size = omega arith in
          let number : k ≡ i / chunk_size = omega arith in
          rest.below i h
          ∙ copy_inside buffer held filled 0 amt i low (omega arith)
          ∙ got (0 + (i - filled)) (omega arith)
          ∙ ap₂ chunks number place
      | no h ↦ rest.random i (omega arith) high
    ];
    below = λ i h. rest.below i (omega arith) ∙ copy_before buffer held filled 0 amt i h;
    above = λ i h. rest.above i h ∙ copy_after buffer held filled 0 amt i (omega arith);
  }

  -- A round that makes a request.
  fill_chunks-round :
      (rounds k : ℕ) (v v' : Vring) (next next' : ℕ) (held held' buffer : Bytes) (filled length : ℕ)
      → ltb filled length ≡ true
      → request_chunk patience (reads k) (chunks k) buf v next held ≡ some (next', held', v')
      → w64 (filled + chunk_size) ≡ filled + chunk_size
      → fill_chunks patience buf reads chunks (suc rounds) k v next held buffer filled length
        ≡ fill_chunks patience buf reads chunks rounds
            (k + 1)
            v'
            next'
            held'
            (copy buffer filled held' 0
              (if ltb (length - filled) chunk_size then length - filled else chunk_size))
            (filled + chunk_size)
            length
  unfolding fill_chunks
  fill_chunks-round rounds k v v' next next' held held' buffer filled length more asked moved =
      rw (more, asked, moved) refl

  fill_chunks-Fills :
      (rounds k : ℕ) (v : Vring) (next : ℕ) (held buffer : Bytes) (filled length : ℕ)
      → filled ≡ k * chunk_size
      → length + chunk_size ≤ 2 ^ 64
      → length ≤ filled + rounds
      → IsWaiting buf v next (w16 (start + k))
      → (buffer' : Bytes) × (v' : Vring) × (fill_chunks patience buf reads chunks rounds k v next
            held buffer filled length
          ≡ some (buffer', v'))
        × Fills chunks buffer filled length buffer'
        × IsReady v'
        × Slots buf v' v'.descr_next
  unfolding fill_chunks
  fill_chunks-Fills zero k v next held buffer filled length at top enough w = (
    buffer,
    v,
    refl,
    record {
      random = λ i low high. absurd (omega arith);
      below = λ i h. refl;
      above = λ i h. refl;
    },
    w.ready,
    w.again,
  )
  fill_chunks-Fills (suc rounds) k v next held buffer filled length at top enough w =
      elim (Bool-cases (ltb filled length)) [
        | inr done ↦ rw done (
          buffer,
          v,
          refl,
          record { random = λ i low high. ground arith; below = λ i h. refl; above = λ i h. refl },
          w.ready,
          w.again,
        )
        | inl more ↦
            let lt = ltb→lt filled length more in
            let amt = if ltb (length - filled) chunk_size then length - filled else chunk_size in
            let (next', held', v', asked, got, w') =
              request_chunk-IsWaiting patience (reads k) (chunks k) buf v next held
                (w16 (start + k)) low (omega arith) (serves k) w in
            let count : w16 (w16 (start + k) + 1) ≡ w16 (start + (k + 1)) = omega arith in
            let moved : w64 (filled + chunk_size) ≡ filled + chunk_size = omega arith in
            let (buffer', v'', filled', all, ready', slots') =
              fill_chunks-Fills rounds (k + 1) v' next' held' (copy buffer filled held' 0 amt)
                (filled + chunk_size) length (omega arith) top (omega arith) (rw count at w') in
            (
              buffer',
              v'',
              fill_chunks-round rounds k v v' next next' held held' buffer filled length more asked
                    moved
                  ∙ filled',
              Fills-chunk k filled length amt held' buffer buffer' got at lt (ground arith) all,
              ready',
              slots',
            )
      ]

  -- With the driver running, and a device that writes into the chain that it finds and counts each
  -- request when it has served it, within the reads that a wait is allowed, on a ring that is ready and
  -- each of whose slots names the next descriptor or one that already asks for a chunk at the same
  -- place: `virtio_get_randomness` ends without powering off, returns the length, and has put the bytes
  -- of the device's chunks, one chunk after the other, into the buffer up to the length and no further;
  -- and the ring that it leaves is such a ring again, for a chunk at that place.
  pub virtio_get_randomness-Fills :
      (v : Vring) (buffer : Bytes) (length : ℕ)
      → IsReady v
      → Slots buf v v.descr_next
      → v.used_last ≡ w16 start
      → length + chunk_size ≤ 2 ^ 64
      → (buffer' : Bytes) × (v' : Vring) × (virtio_get_randomness patience buf reads chunks true v
            buffer length
          ≡ some (length, buffer', v'))
        × Fills chunks buffer 0 length buffer'
        × IsReady v'
        × Slots buf v' v'.descr_next
  unfolding virtio_get_randomness vring_use_descr
  virtio_get_randomness-Fills v buffer length r slots counted top =
      let w : IsWaiting buf v v.descr_next (w16 (start + 0)) = record {
        ready = r;
        in_ring = r.in_table;
        counted = counted ∙ omega arith;
        slots = slots;
        again = slots;
      } in
      let (buffer', v', fills, all, ready', slots') =
        fill_chunks-Fills length 0 v v.descr_next zeros buffer 0 length refl top (omega arith) w in
      (buffer', v', rw fills refl, all, ready', slots')
