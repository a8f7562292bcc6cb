-- ===== src/Tests/Rings.antt =====
-- A ring of four descriptors.
use demandos.Prelude.{
  inl, ◌+◌, ℕ, ◌<◌, ◌≡◌, arith, refl, inr, some, ltb, if◌then◌else◌, w16, true, Bool-cases, Bytes,
  zeros, ◌*◌,
}
use demandos.Memory.Align.{align_up}
use demandos.Memory.Forever.{Forever, forever_alloc_aligned, IsValid}
use demandos.Vring.{Vring, vring_post_descr}
use demandos.Vring.Added.{IsReady}
use demandos.Vring.Chain.{post_request, Requests, post_request-Requests}
use demandos.Vring.Wait.{Serves}
use demandos.Vring.Entropy.{Slots}
use demandos.Vring.Random.{Fills, virtio_get_randomness, virtio_get_randomness-Fills}
use demandos.Vring.Slots.{FillsSlot, device_slot, vring_post_descr_slot}
use demandos.Vring.Layout.{
  page, virtq_descr_size, virtq_avail_size, virtq_used_size, virtq_size, vring_init, IsLaidOut,
  vring_init-IsLaidOut,
}

-- Two requests have been made on it.
abbrev ring : Vring
ring = record {
  num = 4;
  size = 8192;
  bookeeping = record {
    used_last = 2;
    avail_next = 2;
    avail_avail = 4;
    used_avail = 4;
    descr_head = 0;
    descr_next = 1;
  };
  desc_addr = 4096;
  avail_addr = 4160;
  used_addr = 8192;
  desc = λ i. record { addr = 0; len = 0; flags = 0; next = 0 };
  avail_flags = 1;
  avail_idx = 2;
  avail_ring = λ i. 0;
}

ring-IsReady : IsReady ring
ring-IsReady = record { enough = omega arith; bounded = omega arith; in_table = omega arith }

post_request-Requests_example :
    (w : Vring) × (post_request ring 100 2 200 300 ≡ some (1, w))
    × Requests ring 100 2 200 300 ring-IsReady 1 w
post_request-Requests_example =
    post_request-Requests ring 100 2 200 300 ring-IsReady (omega arith) (omega arith) (omega arith)
      (inr refl)

vring_post_descr_slot_example :
    (2 < 3 → FillsSlot ring (device_slot ring) 1 (vring_post_descr ring 1))
    × (ring.avail_next ≡ 3
        → FillsSlot ring 0 1 (vring_post_descr ring 1)
          × (device_slot ring ≡ 3)
          × ((vring_post_descr ring 1).avail_ring (device_slot ring) ≡ 0))
vring_post_descr_slot_example =
    vring_post_descr_slot ring 1 (omega arith) (omega arith) (omega arith)

abbrev storage : Forever
storage = record { frontier = 70; stop = 50000 }

size_256 : virtq_size 256 ≡ 12288
unfolding virtq_size virtq_descr_size virtq_avail_size virtq_used_size align_up
size_256 = refl

storage-IsValid : IsValid storage 12 (virtq_size 256)
storage-IsValid = record { inside = omega arith; room_left = omega (arith, size_256) }

got : (forever_alloc_aligned storage (virtq_size 256) page).0 ≡ some 4096
unfolding forever_alloc_aligned align_up
got = rw size_256 refl

vring_init-IsLaidOut_example :
    let w = (vring_init ring 256 storage).0 in
    IsLaidOut w 256
    × (w.desc_addr ≡ 4096)
    × (w.used_last ≡ 0)
    × (w.avail_next ≡ 0)
    × (w.descr_next ≡ 0)
vring_init-IsLaidOut_example =
    vring_init-IsLaidOut ring 256 storage 4096 (omega arith) storage-IsValid got

-- The same with the first descriptor next, which all slots name: ten requests go round it three times.
abbrev fresh : Vring
fresh = record ring { bookeeping = record (ring.bookeeping) { descr_next = 0 } }

fresh-IsReady : IsReady fresh
fresh-IsReady = record { enough = omega arith; bounded = omega arith; in_table = omega arith }

-- In the k-th request the device's count goes from 2 + k to 3 + k at the third read.
abbrev counts : ℕ → ℕ → ℕ
counts k j = if ltb j 2 then w16 (2 + k) else w16 (w16 (2 + k) + 1)

counts-Serves : (k : ℕ) → Serves 10 (w16 (2 + k)) (counts k)
counts-Serves k = record {
  steps = λ j. elim (Bool-cases (ltb j 2)) [ inl e ↦ inl (rw e refl) | inr e ↦ inr (rw e refl) ];
  moves = (2, omega arith, refl);
}

-- A byte of the k-th chunk.
abbrev entropy : ℕ → Bytes
entropy k i = 10 * k + i

virtio_get_randomness-Fills_example :
    (buffer' : Bytes) × (v' : Vring) × (virtio_get_randomness 10 5000 counts entropy true fresh
        zeros 80
      ≡ some (80, buffer', v'))
    × Fills entropy zeros 0 80 buffer'
    × IsReady v'
    × Slots 5000 v' v'.descr_next
virtio_get_randomness-Fills_example =
    virtio_get_randomness-Fills 10 5000 counts entropy 2 (omega arith) counts-Serves fresh zeros 80
      fresh-IsReady (λ i h. inl refl) refl (omega arith)
