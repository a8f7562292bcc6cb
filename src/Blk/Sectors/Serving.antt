-- ===== src/Blk/Sectors/Serving.antt =====
-- A ring on which every slot names the descriptor that is next: what a sector operation does to it.
use demandos.Prelude.{
  ℕ, suc, ◌+◌, ◌-◌, ◌%◌, ◌^◌, ◌≤◌, ◌<◌, ◌≡◌, ◌⊎◌, ◌∙◌, inl, inr, refl, sym, ap, arith, Bytes, Bool,
  false, some, ℕ_discrete, copy, copy_inside, Apart, ◌==◌, if◌then◌else◌, w16, le32, le64, put32,
  le32_cong, le32-put32, le64-put64, put32_outside, put64_outside,
}
use demandos.Blk.Device.{sector_size}
use demandos.Vring.{Vring, descr_writable, vring_unuse_descr}
use demandos.Vring.Added.{IsReady}
use demandos.Vring.Wait.{vring_wait_completion-Serves}
use demandos.Vring.Chain.{
  header_size, data_size, status_size, walk, Requests, post_request-Requests,
}
use demandos.Blk.Sectors.{
  Hardware, Places, Sectors, request_chain, request_memory, device_chain, sector_sync,
}

-- The driver gives a descriptor back before it asks again, so each request has the same head. Memory
-- that was zero when the ring was laid out has that head, 0, in every slot.
pub record IsServing (v : Vring) : Type 0 where
  pub ready : IsReady v
  pub slots : (i : ℕ) → i < v.num → v.avail_ring i ≡ v.descr_next
  pub avail_word : v.avail_next < 2 ^ 16
  pub used_word : v.used_last < 2 ^ 16

-- The places are apart from one another and have addresses of 64 bits.
pub record IsPlaced (at : Places) : Type 0 where
  pub header_word : at.header < 2 ^ 64
  pub addr_word : at.addr < 2 ^ 64
  pub status_word : at.status < 2 ^ 64
  pub header_data : Apart at.header header_size at.addr data_size
  pub header_status : Apart at.header header_size at.status status_size
  pub data_status : Apart at.addr data_size at.status status_size

module _ (v w : Vring) (header data_flags addr status : ℕ) (serving : IsServing v)
    (posted : Requests v header data_flags addr status serving.ready v.descr_next w) where
  posted_slot : (i : ℕ) → i < v.num → w.avail_ring i ≡ v.descr_next
  posted_slot i h = elim (ℕ_discrete i (v.avail_next % (v.num - 1))) [
    | yes here ↦ rw here posted.slot
    | no other ↦ posted.others i other ∙ serving.slots i h
  ]

  -- Although the driver fills another slot than the one where the device looks, the device finds the
  -- chain that was posted.
  device_chain-Requests :
      device_chain w ≡ request_chain header addr (data_flags == descr_writable) status
  unfolding device_chain
  device_chain-Requests =
      let before : w16 (w.avail_idx + (2 ^ 16 - 1)) ≡ v.avail_next =
        omega (arith, posted.counted.0, serving.avail_word) in
      let small : v.avail_next % v.num < v.num = grind (arith, serving.ready.enough) in
      let rounds : v.num ≡ suc (suc (suc (v.num - 3))) = omega (arith, serving.ready.enough) in
      rw (before, posted.same_num, posted_slot (v.avail_next % v.num) small)
        (ap (λ n. walk n w.desc v.descr_next) rounds ∙ posted.chain (v.num - 3))

  -- The ring after the wait, with the descriptor given back.
  completed-IsServing :
      (count : ℕ)
      → count < 2 ^ 16
      → IsServing (
          vring_unuse_descr
            (record w { bookeeping = record (w.bookeeping) { used_last = count } })
            v.descr_next)
  unfolding vring_unuse_descr
  completed-IsServing count word =
      let back : w16 v.descr_next ≡ v.descr_next =
        omega (arith, serving.ready.in_table, serving.ready.bounded) in
      record {
        ready = record {
          enough = rw posted.same_num serving.ready.enough;
          bounded = rw posted.same_num serving.ready.bounded;
          in_table = rw (back, posted.same_num) serving.ready.in_table;
        };
        slots = λ i h. posted_slot i (rw posted.same_num at h) ∙ sym back;
        avail_word = omega (arith, posted.counted.1);
        used_word = word;
      }

-- What the device finds in the request.
module _ (memory : Bytes) (at : Places) (type sector : ℕ) (buffer : Bytes)
    (placed : IsPlaced at) where
  abbrev pub request : Bytes
  request = request_memory memory at type sector buffer

  pub finds_type : type < 2 ^ 32 → le32 request at.header ≡ type
  unfolding request_memory
  finds_type small =
      let passed = copy memory at.addr buffer 0 sector_size in
      let marked = λ (i : ℕ). if i == at.status then 255 else passed i in
      let typed = put32 marked at.header type in
      let kept = put64_outside typed (at.header + 8) sector in
      le32_cong request typed at.header at.header (kept at.header (inl (omega arith)))
        (kept (at.header + 1) (inl (omega arith))) (kept (at.header + 2) (inl (omega arith)))
        (kept (at.header + 3) (inl (omega arith)))
      ∙ le32-put32 marked at.header type
      ∙ omega arith

  pub finds_sector : sector < 2 ^ 64 → le64 request (at.header + 8) ≡ sector
  unfolding request_memory
  finds_sector small =
      let passed = copy memory at.addr buffer 0 sector_size in
      let marked = λ (i : ℕ). if i == at.status then 255 else passed i in
      le64-put64 (put32 marked at.header type) (at.header + 8) sector ∙ omega arith

  pub finds_buffer : (j : ℕ) → j < sector_size → request (at.addr + j) ≡ buffer j
  unfolding request_memory
  finds_buffer j h =
      let passed = copy memory at.addr buffer 0 sector_size in
      let marked = λ (i : ℕ). if i == at.status then 255 else passed i in
      let outside : (at.addr + j < at.header) ⊎ (at.header + 16 ≤ at.addr + j) =
        elim (placed.header_data) [ inl k ↦ inr (omega arith) | inr k ↦ inl (omega arith) ] in
      let unmarked : (at.addr + j == at.status) ≡ false = elim placed.data_status [
        | inl k ↦ ground arith
        | inr k ↦ ground arith
      ] in
      let place : 0 + (at.addr + j - at.addr) ≡ j = omega arith in
      put64_outside (put32 marked at.header type) (at.header + 8) sector (at.addr + j)
        (elim outside [ inl k ↦ inl (omega arith) | inr k ↦ inr (omega arith) ])
      ∙ put32_outside marked at.header type (at.addr + j)
          (elim outside [ inl k ↦ inl (omega arith) | inr k ↦ inr (omega arith) ])
      ∙ ap (λ (b : Bool). if b then 255 else passed (at.addr + j)) unmarked
      ∙ copy_inside memory buffer at.addr 0 sector_size (at.addr + j) (omega arith) (omega arith)
      ∙ ap buffer place

module _ (hw : Hardware) (memory : Bytes) (at : Places) (placed : IsPlaced at) (s : Sectors hw)
    (serving : IsServing s.ring) where
  -- What the device leaves of the request.
  abbrev pub answer : ℕ → ℕ → ℕ → Bytes → Bytes × hw.Disk
  answer type data_flags sector buffer =
      hw.serve s.stored (request_memory memory at type sector buffer)
        (request_chain at.header at.addr (data_flags == descr_writable) at.status)

  -- A sector operation ends without powering off, with the status and the buffer as the device left
  -- them, and with a ring that is ready for the next.
  pub sector_sync-IsServing :
      (type data_flags sector : ℕ) (buffer : Bytes)
      → (data_flags ≡ 0) ⊎ (data_flags ≡ descr_writable)
      → let (mem, stored) = answer type data_flags sector buffer in
        (ring : Vring) × IsServing ring
        × (sector_sync hw memory at type data_flags s sector buffer
            ≡ some (
              mem at.status % 256,
              (λ (j : ℕ). mem (at.addr + j)),
              record { ring = ring; stored = stored },
            ))
  unfolding sector_sync
  sector_sync-IsServing type data_flags sector buffer flags =
      let v = s.ring in
      let (w, posts, posted) =
        post_request-Requests v at.header data_flags at.addr at.status serving.ready
          placed.header_word placed.addr_word placed.status_word flags in
      let chain = device_chain-Requests v w at.header data_flags at.addr at.status serving posted in
      let word : w.used_last < 2 ^ 16 = rw posted.same_last serving.used_word in
      let waits =
        vring_wait_completion-Serves hw.patience (hw.reads w.used_last) w w.used_last word
          (hw.counts w.used_last word) refl in
      (
        vring_unuse_descr
            (record w { bookeeping = record (w.bookeeping) { used_last = w16 (w.used_last + 1) } })
            v.descr_next,
        completed-IsServing v w at.header data_flags at.addr at.status serving posted
            (w16 (w.used_last + 1)) (omega arith),
        rw (posts, chain, waits) refl,
      )
