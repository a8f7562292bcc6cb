-- ===== src/Memory/Arena/Layout.antt =====
-- Where the elements of the arenas lie.
use demandos.Prelude.{ℕ, ◌+◌, ◌*◌, ◌≤◌, ◌<◌, ◌≡◌, ◌≢◌, ◌⊎◌, arith, some, none, ◌↔◌}
use demandos.Memory.Arena.{Arenas, arena_element_count, element_size, initialize_heap}

-- The five arenas, by the size of their buffers.
pub data Class : Type 0 where
  c32 c64 c128 c256 c512 : Class

abbrev pub buffer_size : Class → ℕ
buffer_size c32 = 32
buffer_size c64 = 64
buffer_size c128 = 128
buffer_size c256 = 256
buffer_size c512 = 512

abbrev pub arena_start : Arenas → Class → ℕ
arena_start a c32 = a.arena_start_32
arena_start a c64 = a.arena_start_64
arena_start a c128 = a.arena_start_128
arena_start a c256 = a.arena_start_256
arena_start a c512 = a.arena_start_512

-- The address of an element's flag; its buffer starts behind it.
abbrev pub flag_at : Arenas → Class → ℕ → ℕ
flag_at a c i = arena_start a c + i * element_size (buffer_size c)

-- The arenas follow one another without a gap.
pub record IsPacked (a : Arenas) : Type 0 where
  pub at_64 : a.arena_start_64 ≡ a.arena_start_32 + 330
  pub at_128 : a.arena_start_128 ≡ a.arena_start_32 + 980
  pub at_256 : a.arena_start_256 ≡ a.arena_start_32 + 2270
  pub at_512 : a.arena_start_512 ≡ a.arena_start_32 + 4840
  pub at_end : a.arena_end_512 ≡ a.arena_start_32 + 9970

-- `initialize_heap` packs the arenas from the heap's start on and within the heap; it powers off
-- exactly when the heap is smaller than the 9970 bytes that they take.
pub initialize_heap-IsPacked :
    (heap_start heap_end : ℕ)
    → ((a : Arenas)
        → initialize_heap heap_start heap_end ≡ some a
        → IsPacked a × (a.arena_start_32 ≡ heap_start) × (a.arena_end_512 ≤ heap_end))
      × ((initialize_heap heap_start heap_end ≡ none) ↔ (heap_end < heap_start + 9970))
unfolding initialize_heap
initialize_heap-IsPacked heap_start heap_end =
    (λ a e. ground arith, (λ e. ground arith, λ h. ground arith))

-- Different elements do not overlap, and each lies within the arenas.
pub elements_disjoint :
    (a : Arenas) (c d : Class) (i j : ℕ)
    → IsPacked a
    → i < arena_element_count
    → j < arena_element_count
    → flag_at a c i ≢ flag_at a d j
    → (flag_at a c i + element_size (buffer_size c) ≤ flag_at a d j)
      ⊎ (flag_at a d j + element_size (buffer_size d) ≤ flag_at a c i)
elements_disjoint a c d i j p hi hj ne = ground arith

pub element_inside :
    (a : Arenas) (c : Class) (i : ℕ)
    → IsPacked a
    → i < arena_element_count
    → (a.arena_start_32 ≤ flag_at a c i)
      × (flag_at a c i + element_size (buffer_size c) ≤ a.arena_end_512)
element_inside a c i p h = ground arith
