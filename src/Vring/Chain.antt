-- ===== src/Vring/Chain.antt =====
-- The chain of three descriptors that a block request makes (src/blk.c), as the device walks it.
use demandos.Prelude.{
  ℕ, zero, suc, ◌+◌, ◌-◌, ◌/◌, ◌%◌, ◌^◌, ◌<◌, ◌≡◌, ◌≢◌, ◌⊎◌, ◌∙◌, inl, inr, refl, ap, arith, Option,
  some, List, [], ◌∷◌, Bool, true, false, ◌==◌, if◌then◌else◌, w16, ◌>>=◌,
}
use native.Mathlib.Nat.{mod-eq_of_lt}
use demandos.Vring.Added.{
  IsReady, step, steps_differ, modulus-eq, added, vring_add_to_descr-added, added-IsReady,
}
use demandos.Vring.{
  Vring, Descriptor, descr_writable, ring_modulus, filled, vring_use_descr, vring_unuse_descr,
  vring_add_to_descr, vring_post_descr,
}

-- sizeof(struct virtio_blk_req_hdr), VIRTIO_BLK_SIZE and sizeof(uint8_t)
abbrev pub header_size : ℕ
header_size = 16

abbrev pub data_size : ℕ
data_size = 512

abbrev pub status_size : ℕ
status_size = 1

-- What `virtio_blk_read_sector_sync` (data flags VRING_DESCR_WRITABLE) and
-- `virtio_blk_write_sector_sync` (data flags 0) do to the ring before they signal the device: the
-- index of the chain's head, and the ring.
unfoldable pub post_request : Vring → ℕ → ℕ → ℕ → ℕ → Option (ℕ × Vring)
unfolding vring_use_descr vring_add_to_descr vring_post_descr
post_request v header data_flags addr status = do
  let used = vring_use_descr v
  (next, v1) ← vring_add_to_descr v header header_size 0 used false
  (next', v2) ← vring_add_to_descr v1 addr data_size data_flags next false
  (_, v3) ← vring_add_to_descr v2 status status_size descr_writable next' true
  some (used, vring_post_descr v3 used)

-- A buffer as the device sees it: its address, its length, and whether the device may write it.
abbrev pub Buffer : Type 0
Buffer = ℕ × ℕ × Bool

-- The device follows `next` for as long as the lowest flag is set.
unfoldable pub walk : ℕ → (ℕ → Descriptor) → ℕ → List Buffer
walk zero desc i = []
walk (suc rounds) desc i =
    let d = desc i in
    let rest = walk rounds desc d.next in
    (d.addr, d.len, d.flags / 2 % 2 == 1) ∷ (if d.flags % 2 == 1 then rest else [])

wrapped_below : (a m : ℕ) → a < m → a % m ≡ a
wrapped_below a m h = mod-eq_of_lt h

-- What the walk sees of a descriptor that was filled in.
module _ (rounds : ℕ) (desc : ℕ → Descriptor) (i buf size flags next : ℕ) where
  walk_linked :
      desc i ≡ filled buf size flags next false
      → buf < 2 ^ 64
      → size < 2 ^ 32
      → next < 2 ^ 16
      → (flags ≡ 0) ⊎ (flags ≡ descr_writable)
      → walk (suc rounds) desc i ≡ (buf, size, flags == descr_writable) ∷ walk rounds desc next
  unfolding walk filled
  walk_linked e hb hs hn (inl plain) = rw (
    e,
    plain,
    wrapped_below buf (2 ^ 64) hb,
    wrapped_below size (2 ^ 32) hs,
    wrapped_below next (2 ^ 16) hn,
  )
  walk_linked e hb hs hn (inr writable) = rw (
    e,
    writable,
    wrapped_below buf (2 ^ 64) hb,
    wrapped_below size (2 ^ 32) hs,
    wrapped_below next (2 ^ 16) hn,
  )

  walk_last :
      desc i ≡ filled buf size flags next true
      → buf < 2 ^ 64
      → size < 2 ^ 32
      → (flags ≡ 0) ⊎ (flags ≡ descr_writable)
      → walk (suc rounds) desc i ≡ (buf, size, flags == descr_writable) ∷ []
  unfolding walk filled
  walk_last e hb hs (inl plain) =
      rw (e, plain, wrapped_below buf (2 ^ 64) hb, wrapped_below size (2 ^ 32) hs)
  walk_last e hb hs (inr writable) =
      rw (e, writable, wrapped_below buf (2 ^ 64) hb, wrapped_below size (2 ^ 32) hs)

module _ (v : Vring) (header data_flags addr status : ℕ) (r : IsReady v) where
  abbrev first : ℕ
  first = v.descr_next

  abbrev second : ℕ
  second = step (v.num - 1) first

  abbrev third : ℕ
  third = step (v.num - 1) second

  abbrev v1 : Vring
  v1 = added v header header_size 0 first false

  abbrev v2 : Vring
  v2 = added v1 addr data_size data_flags second false

  abbrev linked : Vring
  linked = added v2 status status_size descr_writable third true

  r1 : IsReady v1
  r1 = added-IsReady v header header_size 0 first false r

  r2 : IsReady v2
  r2 = added-IsReady v1 addr data_size data_flags second false r1

  differ :
      (second < v.num - 1)
      × (third < v.num - 1)
      × (first ≢ second)
      × (first ≢ third)
      × (second ≢ third)
  differ = steps_differ (v.num - 1) first (omega (arith, r.enough)) r.in_table

  post_request-linked :
      post_request v header data_flags addr status ≡ some (first, vring_post_descr linked first)
  unfolding post_request added
  post_request-linked = rw (
    vring_add_to_descr-added v header header_size 0 first false r (omega (arith, r.in_table)),
    vring_add_to_descr-added v1 addr data_size data_flags second false r1 (omega (arith, differ)),
    vring_add_to_descr-added v2 status status_size descr_writable third true r2
        (omega (arith, differ)),
  )

  first_item : linked.desc first ≡ filled header header_size 0 second false
  unfolding added
  first_item = ground (arith, differ)

  second_item : linked.desc second ≡ filled addr data_size data_flags third false
  unfolding added
  second_item = ground (arith, differ)

  third_item :
      linked.desc third ≡ filled status status_size descr_writable (step (v.num - 1) third) true
  unfolding added
  third_item = ground (arith, differ)

  walk-linked :
      (rounds : ℕ)
      → header < 2 ^ 64
      → addr < 2 ^ 64
      → status < 2 ^ 64
      → (data_flags ≡ 0) ⊎ (data_flags ≡ descr_writable)
      → walk (suc (suc (suc rounds))) linked.desc first
        ≡ (header, header_size, false)
          ∷ (addr, data_size, data_flags == descr_writable)
          ∷ (status, status_size, true)
          ∷ []
  walk-linked rounds hh ha hs flags =
      walk_linked (suc (suc rounds)) linked.desc first header header_size 0 second first_item hh
        (omega arith) (omega (arith, differ, r.bounded)) (inl refl)
      ∙ ap (λ l. (header, header_size, false) ∷ l)
          (walk_linked (suc rounds) linked.desc second addr data_size data_flags third second_item
              ha (omega arith) (omega (arith, differ, r.bounded)) flags
            ∙ ap (λ l. (addr, data_size, data_flags == descr_writable) ∷ l)
                (walk_last rounds linked.desc third status status_size descr_writable _ third_item
                  hs (omega arith) (inr refl)))

  -- The ring that is left: its head is the index that was next, the device that follows the chain
  -- from there finds the header, the data and the status; the head stands in the slot that the
  -- count of requests names; and giving the head back makes the same index next again.
  pub record Requests (used : ℕ) (w : Vring) : Type 0 where
    pub head : used ≡ v.descr_next
    pub chain :
        (rounds : ℕ)
        → walk (suc (suc (suc rounds))) w.desc used
          ≡ (header, header_size, false)
            ∷ (addr, data_size, data_flags == descr_writable)
            ∷ (status, status_size, true)
            ∷ []
    pub slot : w.avail_ring (v.avail_next % (v.num - 1)) ≡ used
    pub others : (i : ℕ) → i ≢ v.avail_next % (v.num - 1) → w.avail_ring i ≡ v.avail_ring i
    pub counted : (w.avail_idx ≡ w16 (v.avail_next + 1)) × (w.avail_next ≡ w16 (v.avail_next + 1))
    pub given_back : (vring_unuse_descr w used).descr_next ≡ v.descr_next
    pub same_num : w.num ≡ v.num
    pub same_last : w.used_last ≡ v.used_last

  posted-Requests :
      header < 2 ^ 64
      → addr < 2 ^ 64
      → status < 2 ^ 64
      → (data_flags ≡ 0) ⊎ (data_flags ≡ descr_writable)
      → Requests first (vring_post_descr linked first)
  unfolding vring_post_descr vring_unuse_descr added
  posted-Requests hh ha hs flags =
      let e : ring_modulus linked ≡ v.num - 1 = modulus-eq v r in
      record {
        head = refl;
        chain = λ rounds. walk-linked rounds hh ha hs flags;
        slot = rw e (ground arith);
        others = λ i h. rw e (ground arith);
        counted = (refl, refl);
        given_back = omega (arith, r.in_table, r.bounded);
        same_num = refl;
        same_last = refl;
      }

  -- A block request on a ring that is ready, with addresses of 64 bits, never powers off: it
  -- posts one chain of three different descriptors, in the order header, data, status, with the
  -- data writable exactly for a read; it puts the chain's head in the slot that the count of
  -- requests names, modulo one less than the size, and giving the head back makes the same index
  -- next again.
  pub post_request-Requests :
      header < 2 ^ 64
      → addr < 2 ^ 64
      → status < 2 ^ 64
      → (data_flags ≡ 0) ⊎ (data_flags ≡ descr_writable)
      → (w : Vring) × (post_request v header data_flags addr status ≡ some (v.descr_next, w))
        × Requests v.descr_next w
  post_request-Requests hh ha hs flags =
      (vring_post_descr linked first, post_request-linked, posted-Requests hh ha hs flags)
