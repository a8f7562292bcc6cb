-- ===== src/Tests/Allocation.antt =====
-- Storage that is given out, and a heap.
use demandos.Prelude.{◌+◌, ◌^◌, ◌≤◌, ◌<◌, ◌≡◌, ◌⊎◌, ◌↔◌, arith, refl, zeros, none, some, [], ◌∷◌}
use demandos.Memory.Forever.{Forever, IsValid, alloc_all, Ascends, alloc_all-Ascends}
use demandos.Memory.Arena.{Arenas, initialize_heap, store, scan, try_alloc_from, malloc}
use demandos.Memory.Arena.Layout.{IsPacked, initialize_heap-IsPacked}
use demandos.Memory.Arena.Malloc.{malloc_disjoint}

abbrev storage : Forever
storage = record { frontier = 70; stop = 20000 }

storage-IsValid : IsValid storage 12 9000
storage-IsValid = record { inside = omega arith; room_left = omega arith }

-- The second request is refused.
alloc_all-Ascends_example : Ascends 70 20000 (alloc_all storage (2 ^ 12) (9000 ∷ 8000 ∷ 100 ∷ []))
alloc_all-Ascends_example =
    alloc_all-Ascends (9000 ∷ 8000 ∷ 100 ∷ []) storage 52 12 9000 refl storage-IsValid
      (omega arith, (omega arith, (omega arith, tt)))

initialize_heap-IsPacked_example :
    ((a : Arenas)
      → initialize_heap 1000 20000 ≡ some a
      → IsPacked a × (a.arena_start_32 ≡ 1000) × (a.arena_end_512 ≤ 20000))
    × ((initialize_heap 1000 20000 ≡ none) ↔ (20000 < 1000 + 9970))
initialize_heap-IsPacked_example = initialize_heap-IsPacked 1000 20000

abbrev heap : Arenas
heap = record {
  arena_start_32 = 1000;
  arena_start_64 = 1330;
  arena_start_128 = 1980;
  arena_start_256 = 3270;
  arena_start_512 = 5840;
  arena_end_512 = 10970;
}

heap-IsPacked : IsPacked heap
heap-IsPacked = record { at_64 = refl; at_128 = refl; at_256 = refl; at_512 = refl; at_end = refl }

first_buffer : malloc heap zeros 20 ≡ some (1001, store zeros 1000 1)
unfolding malloc try_alloc_from scan
first_buffer = refl

second_buffer : malloc heap (store zeros 1000 1) 20 ≡ some (1034, store (store zeros 1000 1) 1033 1)
unfolding malloc try_alloc_from scan store
second_buffer = refl

malloc_disjoint_example :
    ((1001 + 20 < 1034) ⊎ (1034 + 20 < 1001)) × (1000 < 1001) × (1001 + 20 < 10970)
malloc_disjoint_example =
    malloc_disjoint heap zeros (store zeros 1000 1) 20 20 (1001, store zeros 1000 1)
      (1034, store (store zeros 1000 1) 1033 1) heap-IsPacked first_buffer refl second_buffer
