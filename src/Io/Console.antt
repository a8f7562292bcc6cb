-- ===== src/Io/Console.antt =====
-- `stdout_write_handler` of src/io.c: what is written to the console goes to its device as one buffer.
use demandos.Prelude.{
  ℕ, suc, ◌+◌, ◌-◌, ◌%◌, ◌^◌, ◌<◌, ◌≡◌, ◌∙◌, refl, sym, subst, ap, ap₂, arith, inl, inr, Bool, true,
  false, Option, some, [], ◌∷◌, ◌>>=◌, ◌==◌, if◌then◌else◌, w16, w32, Bool-cases,
}
use mathlib.Core.Option.{some-injective}
use demandos.Vring.{
  Vring, ring_modulus, filled, vring_use_descr, vring_unuse_descr, vring_add_to_descr,
  vring_post_descr, vring_wait_completion,
}
use demandos.Vring.Added.{added, vring_add_to_descr-added}
use demandos.Vring.Wait.{Serves, vring_wait_completion-Serves}
use demandos.Vring.Chain.{walk}
use demandos.Blk.Sectors.{device_chain}
use demandos.Blk.Sectors.Serving.{IsServing}
use demandos.Io.{int_minus_one}

-- What the handler does to the second ring before it signals the device, for a buffer at `buf`.
unfoldable pub post_buffer : Vring → ℕ → ℕ → Option (ℕ × Vring)
unfolding vring_use_descr vring_add_to_descr vring_post_descr
post_buffer v buf size = do
  let just_used = vring_use_descr v
  (_, v1) ← vring_add_to_descr v buf size 0 just_used true
  some (just_used, vring_post_descr v1 just_used)

-- The result is an int; `none` is a power-off, or a device that does not answer within `patience`
-- reads of its count.
unfoldable pub write_stdout : ℕ → (ℕ → ℕ) → Bool → Vring → ℕ → ℕ → Option (ℕ × Vring)
unfolding post_buffer vring_wait_completion vring_unuse_descr
write_stdout patience reads initialized v buf size =
    let written = do
      (just_used, v1) ← post_buffer v buf size
      v2 ← vring_wait_completion patience reads v1
      some (w32 size, vring_unuse_descr v2 just_used)
    in if initialized then written else some (int_minus_one, v)

-- The ring when the device is told.
abbrev posted : Vring → ℕ → ℕ → Vring
posted v buf size = vring_post_descr (added v buf size 0 v.descr_next true) v.descr_next

module _ (v : Vring) (buf size : ℕ) (serving : IsServing v) where
  posts : post_buffer v buf size ≡ some (v.descr_next, posted v buf size)
  unfolding post_buffer vring_use_descr
  posts =
      let step_one =
        vring_add_to_descr-added v buf size 0 v.descr_next true serving.ready
          (omega (arith, serving.ready.in_table)) in
      rw step_one refl

  head : w16 v.descr_next ≡ v.descr_next
  head = omega (arith, serving.ready.in_table, serving.ready.bounded)

  posted_slot : (i : ℕ) → i < v.num → (posted v buf size).avail_ring i ≡ v.descr_next
  unfolding vring_post_descr added
  posted_slot i h = elim (Bool-cases (i == v.avail_next % ring_modulus v)) [
    | inl here ↦ rw here head
    | inr other ↦ rw other (serving.slots i h)
  ]

  posted_chain :
      buf < 2 ^ 64 → size < 2 ^ 32 → device_chain (posted v buf size) ≡ (buf, size, false) ∷ []
  unfolding device_chain walk vring_post_descr added filled
  posted_chain low short =
      let place = w16 ((posted v buf size).avail_idx + (2 ^ 16 - 1)) % v.num in
      let inside : place < v.num = grind (arith, serving.ready.enough) in
      let rounds : v.num ≡ suc (v.num - 1) = omega (arith, serving.ready.enough) in
      let own : (v.descr_next == v.descr_next) ≡ true = ground arith in
      rw (posted_slot place inside) (
        ap (λ n. walk n (posted v buf size).desc v.descr_next) rounds
        ∙ (rw own (ap₂ (λ a b. (a, b, false) ∷ []) (omega arith) (omega arith))))

  completed-IsServing :
      (count : ℕ)
      → count < 2 ^ 16
      → IsServing (
          vring_unuse_descr
            (record (posted v buf size) {
              bookeeping = record ((posted v buf size).bookeeping) { used_last = count };
            })
            v.descr_next)
  unfolding vring_unuse_descr vring_post_descr added
  completed-IsServing count word = record {
    ready = record {
      enough = serving.ready.enough;
      bounded = serving.ready.bounded;
      in_table = rw head serving.ready.in_table;
    };
    slots = λ i h. posted_slot i h ∙ sym head;
    avail_word = omega arith;
    used_word = word;
  }

  -- The handler ends, over a ring that serves, and leaves one that serves.
  pub write_stdout_total :
      (patience : ℕ) (reads : ℕ → ℕ)
      → Serves patience v.used_last reads
      → (after : Vring) × (write_stdout patience reads true v buf size ≡ some (w32 size, after))
        × IsServing after
  unfolding write_stdout added
  write_stdout_total patience reads serves =
      let w = posted v buf size in
      let waits =
        vring_wait_completion-Serves patience reads w v.used_last serving.used_word serves refl in
      (
        vring_unuse_descr
            (record w { bookeeping = record (w.bookeeping) { used_last = w16 (v.used_last + 1) } })
            v.descr_next,
        rw (posts, waits) refl,
        completed-IsServing (w16 (v.used_last + 1)) (omega arith),
      )

  -- So it does where the device was not started.
  pub write_stdout_kept :
      (patience : ℕ) (reads : ℕ → ℕ) (initialized : Bool) (q : ℕ × Vring)
      → Serves patience v.used_last reads
      → write_stdout patience reads initialized v buf size ≡ some q
      → IsServing q.1
  unfolding write_stdout
  write_stdout_kept patience reads true q serves e =
      let (after, ends, again) = write_stdout_total patience reads serves in
      subst (λ (p : ℕ × Vring). IsServing p.1) (some-injective _ q (sym ends ∙ e)) again
  write_stdout_kept patience reads false q serves e =
      subst (λ (p : ℕ × Vring). IsServing p.1) (some-injective _ q e) serving

  -- A write to the console, over a ring that serves and with a device that counts it within the reads
  -- that a wait is allowed: the device is told of one buffer, the caller's, which it may not write; the
  -- handler ends with the size, and the ring serves again.
  pub write_stdout-IsServing :
      (patience : ℕ) (reads : ℕ → ℕ)
      → buf < 2 ^ 64
      → size < 2 ^ 32
      → Serves patience v.used_last reads
      → (told after : Vring) × (post_buffer v buf size ≡ some (v.descr_next, told))
        × (device_chain told ≡ (buf, size, false) ∷ [])
        × (write_stdout patience reads true v buf size ≡ some (size, after))
        × IsServing after
  write_stdout-IsServing patience reads low short serves =
      let (after, ends, again) = write_stdout_total patience reads serves in
      let short_size : w32 size ≡ size = omega arith in
      (posted v buf size, after, posts, posted_chain low short, rw short_size at ends, again)
