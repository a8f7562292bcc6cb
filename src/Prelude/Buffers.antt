-- ===== src/Prelude/Buffers.antt =====
-- Memory seen through a pointer: the byte at each offset. A store or a copy changes a range.
use Prim.Native.Nat.{ℕ, ◌+◌, ◌-◌, ◌≤◌, ◌<◌}
use mathlib.Core.Path.{◌≡◌}
use mathlib.Core.Bool.{Bool, ◌&&◌}
use native.Mathlib.Omega.{arith}
use demandos.Prelude.Tests.{ltb, leb, if◌then◌else◌}

abbrev pub Bytes : Type 0
Bytes = ℕ → ℕ

abbrev pub zeros : Bytes
zeros i = 0

-- Whether `i` lies in the `n` places from `start` on.
abbrev pub in_range : ℕ → ℕ → ℕ → Bool
in_range start n i = leb start i && ltb i (start + n)

-- memcpy(dst + to, src + from, n), read as a copy of bytes that are all read first.
unfoldable pub copy : Bytes → ℕ → Bytes → ℕ → ℕ → Bytes
copy dst to src from n i = if in_range to n i then src (from + (i - to)) else dst i

pub copy_inside :
    (dst src : Bytes) (to from n i : ℕ)
    → to ≤ i
    → i < to + n
    → copy dst to src from n i ≡ src (from + (i - to))
unfolding copy
copy_inside dst src to from n i h k = ground arith

pub copy_before : (dst src : Bytes) (to from n i : ℕ) → i < to → copy dst to src from n i ≡ dst i
unfolding copy
copy_before dst src to from n i h = ground arith

pub copy_after : (dst src : Bytes) (to from n i : ℕ) → to + n ≤ i → copy dst to src from n i ≡ dst i
unfolding copy
copy_after dst src to from n i h = ground arith
