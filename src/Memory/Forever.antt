-- ===== src/Memory/Forever.antt =====
-- `forever_alloc_aligned`: storage between two linker symbols, given out from a frontier that only
-- rises. A `none` is the NULL that it returns when the storage is used up.
use demandos.Prelude.{
  ℕ, ◌+◌, ◌*◌, ◌^◌, ◌≤◌, ◌<◌, ◌≡◌, ◌∙◌, refl, sym, ap, arith, inl, inr, Bool-cases, Option-cases,
  ltb→lt, ltb-ge, Option, none, some, List, [], ◌∷◌, ltb, if◌then◌else◌, w64,
}
use demandos.Memory.Align.{align_up, align_up_lem}

pub record Forever : Type 0 where
  pub frontier : ℕ
  pub stop : ℕ

unfoldable pub forever_alloc_aligned : Forever → ℕ → ℕ → Option ℕ × Forever
unfolding align_up
forever_alloc_aligned m size align =
    let start = align_up 64 m.frontier align in
    if ltb m.stop (w64 (start + size))
    then (none, m)
    else (some start, record m { frontier = w64 (start + size) })

-- The frontier is within the storage, which leaves room below the end of the address space.
pub record IsValid (m : Forever) (k room : ℕ) : Type 0 where
  pub inside : m.frontier ≤ m.stop
  pub room_left : m.stop + 2 ^ k + room ≤ 2 ^ 64

-- What one allocation gives: a range that starts at a multiple of the alignment, above all that
-- was given out before and below the new frontier; or nothing, with the storage left as it was.
pub record Allocates (m : Forever) (size k : ℕ) (r : Option ℕ × Forever) : Type 0 where
  pub same_stop : r.1.stop ≡ m.stop
  pub still_inside : r.1.frontier ≤ r.1.stop
  pub rises : m.frontier ≤ r.1.frontier
  pub range :
      (a : ℕ)
      → r.0 ≡ some a
      → (m.frontier ≤ a) × (a + size ≡ r.1.frontier) × ((q : ℕ) × (a ≡ q * 2 ^ k))
  pub refused : r.0 ≡ none → (m.stop < m.frontier + 2 ^ k + size) × (r.1 ≡ m)

-- On storage that is valid `forever_alloc_aligned`, for an alignment 2 ^ k, returns an aligned range
-- between the old and the new frontier, within the storage; it returns NULL only where the rest is
-- smaller than the size and the alignment together, and then changes nothing.
pub forever_alloc_aligned-Allocates :
    (m : Forever) (size h k : ℕ)
    → 2 ^ h * 2 ^ k ≡ 2 ^ 64
    → IsValid m k size
    → Allocates m size k (forever_alloc_aligned m size (2 ^ k))
unfolding forever_alloc_aligned
forever_alloc_aligned-Allocates m size h k e v =
    let (q, multiple, low, high) = align_up_lem 64 h k m.frontier e (omega arith) in
    let end : w64 (align_up 64 m.frontier (2 ^ k) + size) ≡ align_up 64 m.frontier (2 ^ k) + size =
      omega arith in
    rw end (elim (Bool-cases (ltb m.stop (align_up 64 m.frontier (2 ^ k) + size))) [
      | inl full ↦ rw full (record {
        same_stop = refl;
        still_inside = v.inside;
        rises = omega arith;
        range = λ a h. cc;
        refused = λ _. (omega (arith, ltb→lt _ _ full), refl);
      })
      | inr room ↦ rw room (record {
        same_stop = refl;
        still_inside = ltb-ge _ _ room;
        rises = omega arith;
        range = λ a h.
            let same : align_up 64 m.frontier (2 ^ k) ≡ a = cc in
            (rw same at low, ap (λ n. n + size) (sym same), (q, sym same ∙ multiple));
        refused = λ h. cc;
      })
    ])

-- The range that was given out, if any, before the later ones.
abbrev given : Option ℕ → ℕ → List (ℕ × ℕ) → List (ℕ × ℕ)
given none size rest = rest
given (some start) size rest = (start, size) ∷ rest

-- A run of requests, each for a size, and the ranges that it is given.
unfoldable pub alloc_all : Forever → ℕ → List ℕ → List (ℕ × ℕ)
unfolding forever_alloc_aligned
alloc_all m align [] = []
alloc_all m align (size ∷ sizes) =
    let (a, m') = forever_alloc_aligned m size align in given a size (alloc_all m' align sizes)

-- Ranges that lie one above the other, from `low` up to `high`.
abbrev pub Ascends : ℕ → ℕ → List (ℕ × ℕ) → Type 0
Ascends low high [] = low ≤ high
Ascends low high ((start, size) ∷ rest) = (low ≤ start) × Ascends (start + size) high rest

Ascends-lower :
    (low low' high : ℕ) (rs : List (ℕ × ℕ))
    → low ≤ low'
    → Ascends low' high rs
    → Ascends low high rs
Ascends-lower low low' high [] h a = omega arith
Ascends-lower low low' high ((start, size) ∷ rest) h a = (omega arith, a.1)

-- Every size asked for is at most `room`.
abbrev pub AllBelow : ℕ → List ℕ → Type 0
AllBelow room [] = Unit {0}
AllBelow room (x ∷ xs) = (x ≤ room) × AllBelow room xs

-- However often storage is asked for, refusals included, the ranges given out lie one above the
-- other within the storage: no two of them overlap.
pub alloc_all-Ascends :
    (sizes : List ℕ) (m : Forever) (h k room : ℕ)
    → 2 ^ h * 2 ^ k ≡ 2 ^ 64
    → IsValid m k room
    → AllBelow room sizes
    → Ascends m.frontier m.stop (alloc_all m (2 ^ k) sizes)
unfolding alloc_all
alloc_all-Ascends [] m h k room e v b = v.inside
alloc_all-Ascends (size ∷ sizes) m h k room e v b =
    let small : IsValid m k size = record { inside = v.inside; room_left = omega arith } in
    let one = forever_alloc_aligned-Allocates m size h k e small in
    let (a, m') = forever_alloc_aligned m size (2 ^ k) in
    let next : IsValid m' k room = record {
      inside = one.still_inside;
      room_left = rw one.same_stop v.room_left;
    } in
    let rest : Ascends m'.frontier m.stop (alloc_all m' (2 ^ k) sizes) =
      rw one.same_stop at (alloc_all-Ascends sizes m' h k room e next b.1) in
    elim (Option-cases a) [
      | inl refused ↦ rw refused (Ascends-lower m.frontier m'.frontier m.stop _ one.rises rest)
      | inr (start, granted) ↦
          let (low, end, _) = one.range start granted in rw granted (low, rw end rest)
    ]
