-- ===== src/Memory/Arena.antt =====
-- `initialize_heap` and `malloc`: five arenas of ten elements, each element a flag byte and a
-- buffer. The memory is the byte at each address; `none` is `epoweroff`.
pub mod Layout
pub mod Malloc
use demandos.Prelude.{ℕ, zero, suc, ◌+◌, ◌*◌, Bytes, Option, none, some, ltb, ◌==◌, if◌then◌else◌}

-- ARENA_ELEMENT_COUNT
abbrev pub arena_element_count : ℕ
arena_element_count = 10

pub record Arenas : Type 0 where
  pub arena_start_32 : ℕ
  pub arena_start_64 : ℕ
  pub arena_start_128 : ℕ
  pub arena_start_256 : ℕ
  pub arena_start_512 : ℕ
  pub arena_end_512 : ℕ

-- sizeof(struct arena_element_x), and `start + ARENA_ELEMENT_COUNT` of such elements.
abbrev pub element_size : ℕ → ℕ
element_size x = x + 1

abbrev pub arena_end : ℕ → ℕ → ℕ
arena_end start x = start + arena_element_count * element_size x

-- The tests that an arena ends where the next starts compare a value with its own copy.
unfoldable pub initialize_heap : ℕ → ℕ → Option Arenas
initialize_heap heap_start heap_end =
    let start_64 = arena_end heap_start 32 in
    let start_128 = arena_end start_64 64 in
    let start_256 = arena_end start_128 128 in
    let start_512 = arena_end start_256 256 in
    let end_512 = arena_end start_512 512 in
    if ltb heap_end end_512
    then none
    else some (record {
      arena_start_32 = heap_start;
      arena_start_64 = start_64;
      arena_start_128 = start_128;
      arena_start_256 = start_256;
      arena_start_512 = start_512;
      arena_end_512 = end_512;
    })

-- A store of one byte.
unfoldable pub store : Bytes → ℕ → ℕ → Bytes
store mem a v j = if j == a then v else mem j

-- The loop of TRY_ALLOC_FROM(x) over the elements from the `i`-th on: the buffer of the first
-- whose flag is 0, and the memory with the flag set.
unfoldable pub scan : ℕ → Bytes → ℕ → ℕ → ℕ → Option (ℕ × Bytes)
unfolding store
scan zero mem start x i = none
scan (suc rounds) mem start x i =
    let flag = start + i * element_size x in
    let rest = scan rounds mem start x (i + 1) in
    if mem flag == 0 then some (flag + 1, store mem flag 1) else rest

-- TRY_ALLOC_FROM(x), and what follows it where it does not return.
unfoldable pub try_alloc_from : ℕ → ℕ → Bytes → ℕ → Option (ℕ × Bytes) → Option (ℕ × Bytes)
unfolding scan
try_alloc_from x start mem size next =
    if ltb size x
    then (elim (scan arena_element_count mem start x 0) [ none ↦ next | some r ↦ some r ])
    else next

unfoldable pub malloc : Arenas → Bytes → ℕ → Option (ℕ × Bytes)
unfolding try_alloc_from
malloc a mem size = try_alloc_from 32 a.arena_start_32 mem size (
    try_alloc_from 64 a.arena_start_64 mem size (
      try_alloc_from 128 a.arena_start_128 mem size (
        try_alloc_from 256 a.arena_start_256 mem size
          (try_alloc_from 512 a.arena_start_512 mem size none))))
