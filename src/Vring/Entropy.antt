-- ===== src/Vring/Entropy.antt =====
-- One request to the entropy device (the loop of `virtio_get_randomness`, src/virtio.c): a chain of one
-- descriptor for a chunk of eight bytes.
use demandos.Prelude.{
  ℕ, suc, ◌+◌, ◌-◌, ◌%◌, ◌^◌, ◌<◌, ◌≡◌, ◌⊎◌, ◌∙◌, inl, inr, refl, ap, arith, Bytes, true,
  Bool-cases, Option, some, List, [], ◌∷◌, ◌>>=◌, ◌==◌, ◌&&◌, ltb, if◌then◌else◌, w16, w64,
}
use demandos.Vring.{
  Vring, Descriptor, ring_modulus, filled, descr_writable, vring_unuse_descr, vring_add_to_descr,
  vring_post_descr, vring_wait_completion,
}
use demandos.Vring.Added.{IsReady, step, added, vring_add_to_descr-added, added-IsReady}
use demandos.Vring.Chain.{Buffer, walk}
use demandos.Blk.Sectors.{device_chain}
use demandos.Vring.Wait.{Serves, vring_wait_completion-Serves}

-- CHUNK_SIZE
abbrev pub chunk_size : ℕ
chunk_size = 8

-- An entropy device of the standard writes its bytes into the chain that it finds, as far as it may. What
-- the chunk at the address `buf` then holds: a chain that lies elsewhere, or that the device may not
-- write, leaves it.
unfoldable pub answer : ℕ → Bytes → List Buffer → Bytes → Bytes
answer buf held [] chunk = held
answer buf held ((a, len, writable) ∷ rest) chunk =
    if writable && a == buf then (λ (j : ℕ). if ltb j len then chunk j else held j) else held

-- One request: a descriptor for the chunk, which is at the address `buf` and holds `held`, what the
-- device makes of the chain that it finds, the wait for it on `patience` reads of its count, and the
-- descriptor given back.
unfoldable pub request_chunk :
    ℕ → (ℕ → ℕ) → Bytes → ℕ → Vring → ℕ → Bytes → Option (ℕ × Bytes × Vring)
unfolding vring_add_to_descr vring_post_descr vring_wait_completion vring_unuse_descr device_chain
    answer
request_chunk patience reads chunk buf v just_used held = do
  (next, v1) ← vring_add_to_descr v buf chunk_size descr_writable just_used true
  let posted = vring_post_descr v1 just_used
  let held' = answer buf held (device_chain posted) chunk
  v2 ← vring_wait_completion patience reads posted
  some (next, held', vring_unuse_descr v2 just_used)

-- A descriptor that lets the device write a chunk at `buf`.
pub record AsksFor (buf : ℕ) (d : Descriptor) : Type 0 where
  pub at_buf : d.addr ≡ buf
  pub whole : d.len ≡ chunk_size
  pub writable : d.flags ≡ descr_writable

-- Each slot names a descriptor that asks for the chunk at `buf`, or the one that is filled in next: it
-- does on a ring whose memory was zero, and on one where all requests were for a chunk at that place.
abbrev pub Slots : ℕ → Vring → ℕ → Type 0
Slots buf v next =
    (i : ℕ) → i < v.num → (v.avail_ring i ≡ next) ⊎ AsksFor buf (v.desc (v.avail_ring i))

-- The ring between two requests.
pub record IsWaiting (buf : ℕ) (v : Vring) (next count : ℕ) : Type 0 where
  pub ready : IsReady v
  pub in_ring : next < v.num - 1
  pub counted : v.used_last ≡ count
  pub slots : Slots buf v next
  pub again : Slots buf v v.descr_next

module _ (buf : ℕ) (low : buf < 2 ^ 64) (v : Vring) (next count : ℕ)
    (w : IsWaiting buf v next count) where
  -- The ring when the device is told.
  abbrev posted : Vring
  posted = vring_post_descr (added v buf chunk_size descr_writable next true) next

  -- Although the device may look in another slot than the one that was filled, and the heads differ,
  -- what it finds asks for the chunk.
  posted_slots : (i : ℕ) → i < v.num → AsksFor buf (posted.desc (posted.avail_ring i))
  unfolding vring_post_descr added filled
  posted_slots i h =
      let word : w16 next ≡ next = omega (arith, w.in_ring, w.ready.bounded) in
      let own : (next == next) ≡ true = ground arith in
      let address : w64 buf ≡ buf = omega (arith, low) in
      let asks : AsksFor buf
          (filled buf chunk_size descr_writable (step (v.num - 1) v.descr_next) true) =
        record { at_buf = address; whole = refl; writable = refl } in
      elim (Bool-cases (i == v.avail_next % ring_modulus v)) [
        | inl here ↦ rw (here, word, own) asks
        | inr other ↦ rw other (elim (Bool-cases (v.avail_ring i == next)) [
          | inl same ↦ rw same asks
          | inr differs ↦
              rw differs
                (elim (w.slots i h) [ inl e ↦ absurd (ground (arith, e, differs)) | inr a ↦ a ])
        ])
      ]

  posted_chain : device_chain posted ≡ (buf, chunk_size, true) ∷ []
  unfolding device_chain walk vring_post_descr added
  posted_chain =
      let place = w16 (posted.avail_idx + (2 ^ 16 - 1)) % v.num in
      let inside : place < v.num = grind (arith, w.ready.enough) in
      let rounds : v.num ≡ suc (v.num - 1) = omega (arith, w.ready.enough) in
      let asks = posted_slots place inside in
      ap (λ n. walk n posted.desc (posted.avail_ring place)) rounds
      ∙ rw (asks.at_buf, asks.whole, asks.writable) refl

pub request_chunk-IsWaiting :
    (patience : ℕ) (reads : ℕ → ℕ) (chunk : Bytes) (buf : ℕ) (v : Vring) (next : ℕ) (held : Bytes)
    (count : ℕ)
    → buf < 2 ^ 64
    → count < 2 ^ 16
    → Serves patience count reads
    → IsWaiting buf v next count
    → (next' : ℕ) × (held' : Bytes) × (v' : Vring) × (request_chunk patience reads chunk buf v next
          held
        ≡ some (next', held', v'))
      × ((j : ℕ) → j < chunk_size → held' j ≡ chunk j)
      × IsWaiting buf v' next' (w16 (count + 1))
unfolding request_chunk vring_post_descr vring_unuse_descr added answer
request_chunk-IsWaiting patience reads chunk buf v next held count low word serves w =
    let v1 = added v buf chunk_size descr_writable next true in
    let r1 = added-IsReady v buf chunk_size descr_writable next true w.ready in
    let ends =
      vring_wait_completion-Serves patience reads (vring_post_descr v1 next) count word serves
        w.counted in
    let own : (buf == buf) ≡ true = ground arith in
    (
      (v.descr_next + 1) % (v.num - 1),
      answer buf held (device_chain (vring_post_descr v1 next)) chunk,
      vring_unuse_descr
          (record (vring_post_descr v1 next) {
            bookeeping = record ((vring_post_descr v1 next).bookeeping) {
              used_last = w16 (count + 1);
            };
          })
          next,
      rw
          (
            vring_add_to_descr-added v buf chunk_size descr_writable next true w.ready
                (omega (arith, w.in_ring, w.ready.enough)),
            ends,
          )
          refl,
      λ j h.
          let inside : ltb j chunk_size ≡ true = ground (arith, h) in
          rw (posted_chain buf low v next count w, own, inside) refl,
      record {
        ready = record {
          enough = w.ready.enough;
          bounded = w.ready.bounded;
          in_table = omega (arith, w.in_ring, w.ready.bounded);
        };
        in_ring = r1.in_table;
        counted = refl;
        slots = λ i h. inr (posted_slots buf low v next count w i h);
        again = λ i h. inr (posted_slots buf low v next count w i h);
      },
    )
