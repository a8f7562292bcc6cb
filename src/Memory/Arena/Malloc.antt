-- ===== src/Memory/Arena/Malloc.antt =====
-- What `malloc` gives out.
use demandos.Prelude.{
  ℕ, zero, suc, ◌+◌, ◌-◌, ◌*◌, ◌≤◌, ◌<◌, ◌≡◌, ◌≢◌, ◌⊎◌, ◌∙◌, inl, inr, sym, ap, arith, Bytes,
  Option, none, some, ltb, ◌==◌, Bool-cases, Option-cases, ltb→lt, ==_iff, ℕ_discrete, ◌↔◌,
}
use demandos.Memory.Arena.{
  Arenas, arena_element_count, element_size, store, scan, try_alloc_from, malloc,
}
use demandos.Memory.Arena.Layout.{
  Class, c32, c64, c128, c256, c512, buffer_size, arena_start, flag_at, IsPacked, elements_disjoint,
  element_inside,
}

-- The element that a scan from the `i`-th on takes.
abbrev Takes : Bytes → ℕ → ℕ → ℕ → ℕ → ℕ × Bytes → Type 0
Takes mem start x i last r =
    (j : ℕ) × (i ≤ j)
    × (j < last)
    × (mem (start + j * element_size x) ≡ 0)
    × (r ≡ (start + j * element_size x + 1, store mem (start + j * element_size x) 1))

scan-Takes :
    (rounds : ℕ) (mem : Bytes) (start x i : ℕ) {r : ℕ × Bytes}
    → scan rounds mem start x i ≡ some r
    → Takes mem start x i (i + rounds) r
unfolding scan
scan-Takes zero mem start x i e = cc
scan-Takes (suc rounds) mem start x i {r} e =
    elim (Bool-cases (mem (start + i * element_size x) == 0)) [
      | inl free ↦ (i, omega arith, omega arith, (==_iff _ 0).0 free, ground arith)
      | inr used ↦
          let (j, low, high, free, rest) =
            scan-Takes rounds mem start x (i + 1) {r = r} (ground arith) in
          (j, omega arith, omega arith, free, rest)
    ]

scan-none :
    (rounds : ℕ) (mem : Bytes) (start x i j : ℕ)
    → scan rounds mem start x i ≡ none
    → i ≤ j
    → j < i + rounds
    → mem (start + j * element_size x) ≢ 0
unfolding scan
scan-none zero mem start x i j e low high = absurd (omega arith)
scan-none (suc rounds) mem start x i j e low high = elim (ℕ_discrete i j) [
  | yes same ↦ rw (← same) (ground arith)
  | no other ↦ scan-none rounds mem start x (i + 1) j (ground arith) (omega arith) (omega arith)
]

try_alloc_from-Takes :
    (x start : ℕ) (mem : Bytes) (size : ℕ) (next : Option (ℕ × Bytes)) {r : ℕ × Bytes}
    → try_alloc_from x start mem size next ≡ some r
    → ((size < x) × Takes mem start x 0 arena_element_count r) ⊎ (next ≡ some r)
unfolding try_alloc_from
try_alloc_from-Takes x start mem size next {r} e =
    elim (Option-cases (scan arena_element_count mem start x 0)) [
      | inl full ↦ inr (ground arith)
      | inr (r', found) ↦ elim (Bool-cases (ltb size x)) [
        | inl fits ↦
            let same : r' ≡ r = ground arith in
            inl (
              ltb→lt size x fits,
              scan-Takes arena_element_count mem start x 0 {r = r} (rw (← same) found),
            )
        | inr big ↦ inr (ground arith)
      ]
    ]

try_alloc_from-none :
    (x start : ℕ) (mem : Bytes) (size : ℕ) (next : Option (ℕ × Bytes))
    → try_alloc_from x start mem size next ≡ none
    → (size < x → scan arena_element_count mem start x 0 ≡ none) × (next ≡ none)
unfolding try_alloc_from
try_alloc_from-none x start mem size next e =
    elim (Option-cases (scan arena_element_count mem start x 0)) [
      | inl full ↦ ((λ _. full), ground arith)
      | inr (r', found) ↦ ((λ fits. ground arith), ground arith)
    ]

-- An element that was free, whose buffer holds more than `size` bytes; only its flag changes.
abbrev pub Gives : Arenas → Bytes → ℕ → ℕ × Bytes → Type 0
Gives a mem size r =
    (c : Class) × (i : ℕ) × (i < arena_element_count)
    × (size < buffer_size c)
    × (mem (flag_at a c i) ≡ 0)
    × (r ≡ (flag_at a c i + 1, store mem (flag_at a c i) 1))

Takes-Gives :
    (a : Arenas) (c : Class) (mem : Bytes) (size : ℕ) (r : ℕ × Bytes)
    → (size < buffer_size c) × Takes mem (arena_start a c) (buffer_size c) 0 arena_element_count r
    → Gives a mem size r
Takes-Gives a c mem size r (fits, (i, low, high, free, e)) = (c, i, high, fits, free, e)

-- What `malloc` returns is the buffer of an element that was free and is larger than the request;
-- it marks that element as used and leaves all other memory as it is.
pub malloc-Gives :
    (a : Arenas) (mem : Bytes) (size : ℕ) (r : ℕ × Bytes)
    → malloc a mem size ≡ some r
    → Gives a mem size r
unfolding malloc
malloc-Gives a mem size r e = elim (try_alloc_from-Takes 32 a.arena_start_32 mem size _ {r = r} e) [
  | inl t ↦ Takes-Gives a c32 mem size r t
  | inr e ↦ elim (try_alloc_from-Takes 64 a.arena_start_64 mem size _ {r = r} e) [
    | inl t ↦ Takes-Gives a c64 mem size r t
    | inr e ↦ elim (try_alloc_from-Takes 128 a.arena_start_128 mem size _ {r = r} e) [
      | inl t ↦ Takes-Gives a c128 mem size r t
      | inr e ↦ elim (try_alloc_from-Takes 256 a.arena_start_256 mem size _ {r = r} e) [
        | inl t ↦ Takes-Gives a c256 mem size r t
        | inr e ↦ elim (try_alloc_from-Takes 512 a.arena_start_512 mem size _ {r = r} e) [
          | inl t ↦ Takes-Gives a c512 mem size r t
          | inr e ↦ cc
        ]
      ]
    ]
  ]
]

-- Where `malloc` fails it has scanned every arena whose buffers are large enough.
malloc_scans :
    (a : Arenas) (mem : Bytes) (size : ℕ) (c : Class)
    → malloc a mem size ≡ none
    → size < buffer_size c
    → scan arena_element_count mem (arena_start a c) (buffer_size c) 0 ≡ none
unfolding malloc
malloc_scans a mem size c e fits =
    let (s32, e32) = try_alloc_from-none 32 a.arena_start_32 mem size _ e in
    let (s64, e64) = try_alloc_from-none 64 a.arena_start_64 mem size _ e32 in
    let (s128, e128) = try_alloc_from-none 128 a.arena_start_128 mem size _ e64 in
    let (s256, e256) = try_alloc_from-none 256 a.arena_start_256 mem size _ e128 in
    let (s512, _) = try_alloc_from-none 512 a.arena_start_512 mem size _ e256 in
    elim c
        as (λ d.
          size < buffer_size d
          → scan arena_element_count mem (arena_start a d) (buffer_size d) 0 ≡ none) [
            | c32 ↦ s32
            | c64 ↦ s64
            | c128 ↦ s128
            | c256 ↦ s256
            | c512 ↦ s512
          ]
      fits

-- Every element that could hold the request is in use.
abbrev pub IsFull : Arenas → Bytes → ℕ → Type 0
IsFull a mem size =
    (c : Class) (i : ℕ) → size < buffer_size c → i < arena_element_count → mem (flag_at a c i) ≢ 0

-- `malloc` powers off exactly when every element that could hold the request is in use: an arena
-- that is full passes the request on to the next larger one.
pub malloc-none :
    (a : Arenas) (mem : Bytes) (size : ℕ) → (malloc a mem size ≡ none) ↔ IsFull a mem size
malloc-none a mem size = (all_used, no_element)
  where
    all_used : malloc a mem size ≡ none → IsFull a mem size
    all_used e c i fits high =
        scan-none arena_element_count mem (arena_start a c) (buffer_size c) 0 i
          (malloc_scans a mem size c e fits) (omega arith) high

    no_element : IsFull a mem size → malloc a mem size ≡ none
    no_element full = elim (Option-cases (malloc a mem size)) [
      | inl e ↦ e
      | inr (r, e) ↦
          let (c, i, high, fits, free, _) = malloc-Gives a mem size r e in
          absurd (full c i fits high free)
    ]

store_self : (mem : Bytes) (a v j : ℕ) → j ≡ a → store mem a v j ≡ v
unfolding store
store_self mem a v j h = ground arith

-- Two buffers that are in use at once do not overlap: if the flag before the first is still set when
-- `malloc` gives out the second, then the bytes asked for lie apart, all of them within the arenas.
-- In between the memory may have changed in any way.
pub malloc_disjoint :
    (a : Arenas) (mem mem' : Bytes) (size size' : ℕ) (r r' : ℕ × Bytes)
    → IsPacked a
    → malloc a mem size ≡ some r
    → mem' (r.0 - 1) ≡ r.1 (r.0 - 1)
    → malloc a mem' size' ≡ some r'
    → ((r.0 + size < r'.0) ⊎ (r'.0 + size' < r.0))
      × (a.arena_start_32 < r.0)
      × (r.0 + size < a.arena_end_512)
malloc_disjoint a mem mem' size size' r r' packed e kept e' =
    let (c, i, high, fits, free, given) = malloc-Gives a mem size r e in
    let (d, j, high', fits', free', given') = malloc-Gives a mem' size' r' e' in
    let at : r.0 ≡ flag_at a c i + 1 = ap (λ (q : ℕ × Bytes). q.0) given in
    let at' : r'.0 ≡ flag_at a d j + 1 = ap (λ (q : ℕ × Bytes). q.0) given' in
    let (low, top) = element_inside a c i packed high in
    let flag : r.0 - 1 ≡ flag_at a c i = omega arith in
    let set_flag : mem' (flag_at a c i) ≡ 1 =
      ap mem' (sym flag)
      ∙ kept
      ∙ ap (λ (q : ℕ × Bytes). q.1 (r.0 - 1)) given
      ∙ store_self mem (flag_at a c i) 1 (r.0 - 1) flag in
    let apart : flag_at a c i ≢ flag_at a d j = λ same. omega (arith, ap mem' same) in
    (
      elim (elements_disjoint a c d i j packed high high' apart) [
        | inl h ↦ inl (omega arith)
        | inr h ↦ inr (omega arith)
      ],
      omega arith,
      omega arith,
    )
