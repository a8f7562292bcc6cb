-- ===== src/Kernel/Mounts.antt =====
-- How often `mount_hd_s` of src/strap_handler.c can be called: each call takes an element of the heap and
-- gives none back.
use demandos.Prelude.{
  ℕ, zero, suc, ◌+◌, ◌≤◌, ◌<◌, ◌≡◌, ◌≢◌, refl, sym, ap, subst, arith, inl, inr, Bytes, Bool-cases,
  Option-cases, ℕ_discrete, ◌==◌, if◌then◌else◌,
}
use demandos.Blk.Device.{BlockDevice}
use demandos.Memory.Arena.{Arenas, arena_element_count, malloc, store}
use demandos.Memory.Arena.Layout.{c512, flag_at, buffer_size, Class, c32, c64, c128, c256}
use demandos.Memory.Arena.Malloc.{malloc-Gives, IsFull, malloc-none}
use demandos.Io.Handlers.{io_mount_hd}
use demandos.Kernel.{System, Outcome, returned, powered_off, no_return}
use demandos.Kernel.Handlers.{mount_hd_s}

-- The elements of the last arena, of the first `n`, that are not in use.
unfoldable pub free_elements : Arenas → Bytes → ℕ → ℕ
free_elements a mem zero = 0
free_elements a mem (suc n) =
    let fewer = free_elements a mem n in if mem (flag_at a c512 n) == 0 then fewer + 1 else fewer

free_elements-none :
    (a : Arenas) (mem : Bytes) (n : ℕ)
    → ((i : ℕ) → i < n → mem (flag_at a c512 i) ≢ 0)
    → free_elements a mem n ≡ 0
unfolding free_elements
free_elements-none a mem zero used = refl
free_elements-none a mem (suc n) used = elim (Bool-cases (mem (flag_at a c512 n) == 0)) [
  | inl free ↦ absurd (used n (omega arith) (ground arith))
  | inr taken ↦ rw taken (free_elements-none a mem n (λ i h. used i (omega arith)))
]

none-used :
    (a : Arenas) (mem : Bytes) (n i : ℕ)
    → free_elements a mem n ≡ 0
    → i < n
    → mem (flag_at a c512 i) ≢ 0
unfolding free_elements
none-used a mem zero i e h = absurd (omega arith)
none-used a mem (suc n) i e h = elim (Bool-cases (mem (flag_at a c512 n) == 0)) [
  | inl free ↦ let some_free = rw free at e in absurd (omega arith)
  | inr taken ↦
      let fewer : free_elements a mem n ≡ 0 = rw taken at e in
      elim (ℕ_discrete i n) [
        | yes here ↦ rw here (ground arith)
        | no other ↦ none-used a mem n i fewer (omega arith)
      ]
]

store-flag :
    (a : Arenas) (mem : Bytes) (i n : ℕ)
    → i ≢ n
    → store mem (flag_at a c512 i) 1 (flag_at a c512 n) ≡ mem (flag_at a c512 n)
unfolding store
store-flag a mem i n h = ground arith

store-own : (mem : Bytes) (p : ℕ) → store mem p 1 p ≡ 1
unfolding store
store-own mem p = ground arith

free_elements-above :
    (a : Arenas) (mem : Bytes) (n i : ℕ)
    → n ≤ i
    → free_elements a (store mem (flag_at a c512 i) 1) n ≡ free_elements a mem n
unfolding free_elements
free_elements-above a mem zero i h = refl
free_elements-above a mem (suc n) i h =
    rw (store-flag a mem i n (omega arith), free_elements-above a mem n i (omega arith)) refl

-- An element that is taken is one less.
free_elements-store :
    (a : Arenas) (mem : Bytes) (n i : ℕ)
    → i < n
    → mem (flag_at a c512 i) ≡ 0
    → free_elements a (store mem (flag_at a c512 i) 1) n + 1 ≡ free_elements a mem n
unfolding free_elements
free_elements-store a mem zero i h free = absurd (omega arith)
free_elements-store a mem (suc n) i h free = elim (ℕ_discrete i n) [
  | yes here ↦
      let at : mem (flag_at a c512 n) ≡ 0 = subst (λ k. mem (flag_at a c512 k) ≡ 0) here free in
      let own : store mem (flag_at a c512 i) 1 (flag_at a c512 n) ≡ 1 =
        subst (λ k. store mem (flag_at a c512 i) 1 (flag_at a c512 k) ≡ 1) here
          (store-own mem (flag_at a c512 i)) in
      rw (own, free_elements-above a mem n i (omega arith), at) refl
  | no other ↦
      let same = store-flag a mem i n other in
      let fewer = free_elements-store a mem n i (omega arith) free in
      elim (Bool-cases (mem (flag_at a c512 n) == 0)) [
        | inl unused ↦ rw (same, unused) (omega (arith, fewer))
        | inr taken ↦ rw (same, taken) fewer
      ]
]

-- Only the elements of the last arena are large enough for a mount.
only_last : (c : Class) → 500 < buffer_size c → c ≡ c512
only_last c32 h = absurd (omega arith)
only_last c64 h = absurd (omega arith)
only_last c128 h = absurd (omega arith)
only_last c256 h = absurd (omega arith)
only_last c512 h = refl

module _ {dev : BlockDevice} where
  -- So many calls, one after the other, for as long as they return.
  unfoldable pub mounts : ℕ → System dev → Outcome dev
  mounts zero s = returned 0 s
  mounts (suc n) s = elim (mount_hd_s s) [
    | returned result s' ↦ mounts n s'
    | powered_off s' ↦ powered_off s'
    | no_return ↦ no_return
  ]

  abbrev pub left_over : System dev → ℕ
  left_over s = free_elements s.arenas s.memory arena_element_count

  -- The memory in which the flag of an element of the last arena is set.
  abbrev mem_after : System dev → ℕ → Bytes
  mem_after s i = store s.memory (flag_at s.arenas c512 i) 1

  mount_hd_s-full : (s : System dev) → left_over s ≡ 0 → mount_hd_s s ≡ powered_off s
  unfolding mount_hd_s
  mount_hd_s-full s none_left =
      let full : IsFull s.arenas s.memory 500 = λ c i fits inside.
        subst (λ d. s.memory (flag_at s.arenas d i) ≢ 0) (sym (only_last c fits))
          (none-used s.arenas s.memory arena_element_count i none_left inside) in
      rw (mount_hd_s, (malloc-none s.arenas s.memory 500).1 full) refl

  mount_hd_s-free :
      (s : System dev)
      → left_over s ≢ 0
      → (r : ℕ) × (s' : System dev) × (mount_hd_s s ≡ returned r s')
        × (left_over s' + 1 ≡ left_over s)
  unfolding mount_hd_s
  mount_hd_s-free s some_left = elim (Option-cases (malloc s.arenas s.memory 500)) [
    | inl full ↦ absurd (
        some_left (
          free_elements-none s.arenas s.memory arena_element_count
            (λ i h. (malloc-none s.arenas s.memory 500).0 full c512 i (omega arith) h)))
    | inr (q, got) ↦
        let (c, i, inside, fits, free, is) = malloc-Gives s.arenas s.memory 500 q got in
        let last : mem_after s i ≡ q.1 =
          subst (λ d. store s.memory (flag_at s.arenas d i) 1 ≡ q.1) (only_last c fits)
            (sym (ap (λ (x : ℕ × Bytes). x.1) is)) in
        rw (mount_hd_s, got)
          (
            (io_mount_hd s.io).0,
            record s { memory = q.1; io = (io_mount_hd s.io).1 },
            refl,
            subst (λ mem. free_elements s.arenas mem arena_element_count + 1 ≡ left_over s) last
                (free_elements-store s.arenas s.memory arena_element_count i inside
                  (subst (λ d. s.memory (flag_at s.arenas d i) ≡ 0) (only_last c fits) free)),
          )
  ]

  -- With `n` elements of the last arena left, `n` calls of `mount_hd_s` one after the other return and
  -- leave none, and one more powers the machine off.
  pub mounts_lem :
      (n : ℕ) (s : System dev)
      → left_over s ≡ n
      → (s' : System dev) × ((r : ℕ) × (mounts n s ≡ returned r s'))
        × (mounts (suc n) s ≡ powered_off s')
  unfolding mounts
  mounts_lem zero s none_left = (s, (0, refl), rw (mounts, mount_hd_s-full s none_left) refl)
  mounts_lem (suc n) s left =
      let (r, between, returns, fewer) = mount_hd_s-free s (omega arith) in
      let (s', (r', all), off) = mounts_lem n between (omega arith) in
      (s', (r', rw (mounts, returns) all), rw (mounts, returns) off)
