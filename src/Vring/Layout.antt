-- ===== src/Vring/Layout.antt =====
-- The sizes and places of the three tables of a ring (`virtq_size`, `vring_init` of src/virtio.c).
use demandos.Prelude.{
  ℕ, ◌+◌, ◌*◌, ◌^◌, ◌≤◌, ◌≡◌, refl, sym, arith, Option, none, some, w16, w32, w64,
}
use demandos.Memory.Align.{align_up, align_up_lem}
use demandos.Memory.Forever.{
  Forever, forever_alloc_aligned, IsValid, forever_alloc_aligned-Allocates,
}
use demandos.Vring.{Vring}

-- The alignment of a ring and of its used table.
abbrev pub page : ℕ
page = 4096

-- Sizes are computed as unsigned int.
unfoldable pub virtq_descr_size : ℕ → ℕ
virtq_descr_size qsz = w32 (16 * qsz)

unfoldable pub virtq_avail_size : ℕ → ℕ
virtq_avail_size qsz = w32 (2 * 3 + 2 * qsz)

unfoldable pub virtq_used_size : ℕ → ℕ
virtq_used_size qsz = w32 (2 * 3 + 8 * qsz)

unfoldable pub virtq_size : ℕ → ℕ
unfolding virtq_descr_size virtq_avail_size virtq_used_size
virtq_size qsz = w32 (
    align_up 32 (w32 (virtq_descr_size qsz + virtq_avail_size qsz)) page
    + align_up 32 (virtq_used_size qsz) page)

-- The address of the storage, which is 0 where `forever_alloc_aligned` returned NULL: the source does
-- not test it.
abbrev address : Option ℕ → ℕ
address none = 0
address (some a) = a

-- `num` and the contents of the tables are as they were; the callers set `num` afterwards.
unfoldable pub vring_init : Vring → ℕ → Forever → Vring × Forever
unfolding virtq_descr_size virtq_avail_size
vring_init v qsz m =
    let memsize = virtq_size qsz in
    let (space, m') = forever_alloc_aligned m memsize page in
    let desc = address space in
    let avail = w64 (desc + virtq_descr_size qsz) in
    (
      record v {
        size = memsize;
        desc_addr = desc;
        avail_addr = avail;
        used_addr = align_up 64 (w64 (avail + virtq_avail_size qsz)) page;
        avail_flags = 1;
        bookeeping = record (v.bookeeping) {
          used_avail = w16 qsz;
          avail_avail = w16 qsz;
          used_last = 0;
          avail_next = 0;
          descr_next = 0;
        };
      },
      m',
    )

-- The tables lie in the storage that was given out for the ring one behind the other, each as large
-- as its entries need, and the used table starts on a page of its own, as a device expects.
pub record IsLaidOut (v : Vring) (qsz : ℕ) : Type 0 where
  pub descriptors_first : v.desc_addr + 16 * qsz ≡ v.avail_addr
  pub avail_before_used : v.avail_addr + (6 + 2 * qsz) ≤ v.used_addr
  pub used_on_page : (q : ℕ) × (v.used_addr ≡ q * page)
  pub used_inside : v.used_addr + (6 + 8 * qsz) ≤ v.desc_addr + v.size

-- The size is that of two aligned parts, the first for the descriptors and the available ring.
virtq_size_parts :
    (qsz : ℕ)
    → qsz ≤ 2 ^ 15
    → (f b : ℕ) × (virtq_size qsz ≡ f * page + b * page)
      × (16 * qsz + (6 + 2 * qsz) ≤ f * page)
      × (6 + 8 * qsz ≤ b * page)
unfolding virtq_size
virtq_size_parts qsz top =
    let front_arg : w32 (w32 (16 * qsz) + w32 (2 * 3 + 2 * qsz)) ≡ 16 * qsz + (6 + 2 * qsz) =
      omega arith in
    let back_arg : w32 (2 * 3 + 8 * qsz) ≡ 6 + 8 * qsz = omega arith in
    let (f, front_page, front_low, front_high) =
      align_up_lem 32 20 12 (16 * qsz + (6 + 2 * qsz)) refl (omega arith) in
    let (b, back_page, back_low, back_high) =
      align_up_lem 32 20 12 (6 + 8 * qsz) refl (omega arith) in
    rw (front_arg, back_arg) (f, b, omega arith, omega arith, omega arith)

-- For a queue of up to 2 ^ 15 entries, a call of `vring_init` that is given storage, from storage
-- that is valid, lays the tables out in it without overlap, and starts the counters at 0.
pub vring_init-IsLaidOut :
    (v : Vring) (qsz : ℕ) (m : Forever) (a : ℕ)
    → qsz ≤ 2 ^ 15
    → IsValid m 12 (virtq_size qsz)
    → (forever_alloc_aligned m (virtq_size qsz) page).0 ≡ some a
    → let w = (vring_init v qsz m).0 in
      IsLaidOut w qsz
      × (w.desc_addr ≡ a)
      × (w.used_last ≡ 0)
      × (w.avail_next ≡ 0)
      × (w.descr_next ≡ 0)
unfolding vring_init
vring_init-IsLaidOut v qsz m a top valid got =
    let al = forever_alloc_aligned-Allocates m (virtq_size qsz) 52 12 refl valid in
    let (low, end, (n, on_page)) = al.range a got in
    let (f, b, size_eq, front, back) = virtq_size_parts qsz top in
    let inside : a + virtq_size qsz ≤ m.stop = omega (arith, end, al.same_stop, al.still_inside) in
    let begin = w64 (a + virtq_descr_size qsz) in
    let middle = w64 (begin + virtq_avail_size qsz) in
    let at_avail : begin ≡ a + 16 * qsz =
      unfold virtq_descr_size in omega (arith, valid.room_left) in
    let at_used : middle ≡ a + (16 * qsz + (6 + 2 * qsz)) =
      unfold virtq_avail_size in omega (arith, valid.room_left, at_avail) in
    let (q, used_page, used_low, used_high) =
      align_up_lem 64 52 12 middle refl (omega (arith, valid.room_left, at_used)) in
    rw got (
      record {
        descriptors_first = sym at_avail;
        avail_before_used = omega (arith, at_avail, at_used);
        used_on_page = (q, used_page);
        used_inside = omega arith;
      },
      refl,
      refl,
      refl,
      refl,
    )
