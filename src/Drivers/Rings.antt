-- ===== src/Drivers/Rings.antt =====
-- What a driver's start leaves of a ring: where its tables lie, that the device is told, that it serves.
use demandos.Prelude.{
  ℕ, ◌+◌, ◌/◌, ◌^◌, ◌≤◌, ◌≡◌, ◌≢◌, ◌∙◌, refl, sym, ap, arith, inl, inr, true, Option, none, some,
  List, [], ◌∷◌, ◌++◌, Option-cases, w32, w64,
}
use mathlib.Core.List.{append_assoc, append-nil}
use demandos.Memory.Forever.{
  Forever, IsValid, forever_alloc_aligned, forever_alloc_aligned-Allocates,
}
use demandos.Vring.{Vring}
use demandos.Vring.Layout.{page, virtq_size, vring_init, IsLaidOut, vring_init-IsLaidOut}
use demandos.Blk.Sectors.Serving.{IsServing}
use demandos.Drivers.{
  Store, DriverInit, init_entropy_virtio_f, init_blk_virtio_f, init_console_virtio_f, VirtioDriver,
}

-- Among the stores to the registers is the one that tells a device where its ring is.
pub Told : ℕ → Vring → List Store → Type 0
Told host v stores =
    (before : List Store) × (after : List Store) × (stores
      ≡ before
        ++ (record { address = w64 (host + 8); bytes = 4; value = w32 (v.desc_addr / page) }
            ∷ after))

-- A list of stores after more of them.
abbrev pub Grows : List Store → List Store → Type 0
Grows old new = (more : List Store) × (new ≡ old ++ more)

pub one_more : (old new : List Store) (x : Store) → Grows old new → Grows old (new ++ (x ∷ []))
one_more old new x (more, e) =
    (more ++ (x ∷ []), ap (λ l. l ++ (x ∷ [])) e ∙ append_assoc old more (x ∷ []))

pub Grows-Told :
    (host : ℕ) (v : Vring) (old new : List Store)
    → Grows old new
    → Told host v old
    → Told host v new
unfolding Told
Grows-Told host v old new (more, e) (before, after, f) =
    (before, after ++ more, e ∙ ap (λ l. l ++ more) f ∙ append_assoc before _ more)

pub written_last :
    (host : ℕ) (v : Vring) (before : List Store)
    → Told host v (
        before
        ++ (record { address = w64 (host + 8); bytes = 4; value = w32 (v.desc_addr / page) } ∷ []))
unfolding Told
written_last host v before = (before, [], refl)

pub written_earlier :
    (host : ℕ) (v : Vring) (stores : List Store) (x : Store)
    → Told host v stores
    → Told host v (stores ++ (x ∷ []))
written_earlier host v stores x = Grows-Told host v stores (stores ++ (x ∷ [])) (x ∷ [], refl)

pub same_stores : (stores : List Store) → Grows stores stores
same_stores stores = ([], sym (append-nil stores))

-- The size for which an `init_f` lays a ring out.
unfoldable pub laid_for : Option DriverInit → Vring → ℕ
laid_for none v = v.num
laid_for (some init_blk_virtio_f) v = 256
laid_for (some init_entropy_virtio_f) v = v.num
laid_for (some init_console_virtio_f) v = v.num

-- The device at `host` was told where the ring is; and if there was storage for the ring, its tables are
-- laid out for `qsz` entries, and where that is the size of the queue, the ring serves.
pub record HasRing (host : ℕ) (stores : List Store) (qsz : ℕ) (v : Vring) : Type 0 where
  pub told : Told host v stores
  pub laid_out : v.desc_addr ≢ 0 → IsLaidOut v qsz
  pub serving : v.desc_addr ≢ 0 → v.num ≡ qsz → IsServing v

-- Storage in which a ring of any size may be asked for.
abbrev pub HasRoom : Forever → Type 0
HasRoom m = IsValid m 12 (2 ^ 32)

room_for : (m : Forever) (qsz : ℕ) → HasRoom m → IsValid m 12 (virtq_size qsz)
unfolding virtq_size
room_for m qsz v = record { inside = v.inside; room_left = omega (arith, v.room_left) }

pub vring_init-HasRoom :
    (v : Vring) (qsz : ℕ) (m : Forever) → HasRoom m → HasRoom (vring_init v qsz m).1
unfolding vring_init
vring_init-HasRoom v qsz m room =
    let al = forever_alloc_aligned-Allocates m (virtq_size qsz) 52 12 refl (room_for m qsz room) in
    record { inside = al.still_inside; room_left = omega (arith, al.same_stop, room.room_left) }

-- A ring that is given storage, and none that is not.
vring_init-laid :
    (v : Vring) (qsz len : ℕ) (m : Forever)
    → HasRoom m
    → qsz ≤ 2 ^ 15
    → (vring_init v qsz m).0.desc_addr ≢ 0
    → IsLaidOut (record ((vring_init v qsz m).0) { num = len }) qsz
vring_init-laid v qsz len m room top there =
    elim (Option-cases (forever_alloc_aligned m (virtq_size qsz) page).0) [
      | inl none_given ↦ absurd (there (unfold vring_init in rw none_given refl))
      | inr (a, given) ↦
          let laid = (vring_init-IsLaidOut v qsz m a top (room_for m qsz room) given).0 in
          record {
            descriptors_first = laid.descriptors_first;
            avail_before_used = laid.avail_before_used;
            used_on_page = laid.used_on_page;
            used_inside = laid.used_inside;
          }
    ]

-- A ring that is laid out in memory that was zero, with as many entries as a queue may have.
pub fresh-HasRing :
    (v : Vring) (qsz len : ℕ) (m : Forever) (host : ℕ) (stores : List Store)
    → ((i : ℕ) → v.avail_ring i ≡ 0)
    → HasRoom m
    → qsz ≤ 2 ^ 15
    → (4 ≤ len) × (len ≤ 2 ^ 15)
    → Told host (record ((vring_init v qsz m).0) { num = len }) stores
    → HasRing host stores qsz (record ((vring_init v qsz m).0) { num = len })
fresh-HasRing v qsz len m host stores blank room top sized told = record {
  told = told;
  laid_out = λ there. vring_init-laid v qsz len m room top there;
  serving = λ there same.
      unfold vring_init in
      record {
        ready = record { enough = sized.0; bounded = sized.1; in_table = omega (arith, sized.0) };
        slots = λ i h. blank i;
        avail_word = omega arith;
        used_word = omega arith;
      };
}

-- Once a driver is started it has its first ring, and the console the second one, with which it writes.
pub record HasRings (driver : VirtioDriver) (stores : List Store) : Type 0 where
  pub first :
      driver.initialized ≡ true
      → HasRing driver.host stores (laid_for driver.init_f (driver.vring 0)) (driver.vring 0)
  pub second :
      driver.initialized ≡ true
      → driver.init_f ≡ some init_console_virtio_f
      → HasRing driver.host stores (driver.vring 1).num (driver.vring 1)

pub Grows-HasRings :
    (driver : VirtioDriver) (old new : List Store)
    → Grows old new
    → HasRings driver old
    → HasRings driver new
Grows-HasRings driver old new g h = record {
  first = λ on.
      let r = h.first on in
      record {
        told = Grows-Told driver.host (driver.vring 0) old new g r.told;
        laid_out = r.laid_out;
        serving = r.serving;
      };
  second = λ on f.
      let r = h.second on f in
      record {
        told = Grows-Told driver.host (driver.vring 1) old new g r.told;
        laid_out = r.laid_out;
        serving = r.serving;
      };
}
