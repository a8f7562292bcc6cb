-- ===== src/Prelude/Words.antt =====
-- Machine words as native numbers, and the little-endian words of a byte buffer.
use Prim.Native.Nat.{ℕ, ◌+◌, ◌-◌, ◌*◌, ◌/◌, ◌%◌, ◌^◌, ◌≤◌, ◌<◌}
use mathlib.Core.Path.{◌≡◌}
use mathlib.Core.Logic.{◌⊎◌, inl}
use native.Mathlib.Omega.{arith}
use mathlib.Core.Bool.{true, ◌&&◌}
use demandos.Prelude.Tests.{ltb, leb, if◌then◌else◌}
use demandos.Prelude.Buffers.{Bytes}

-- Two ranges of memory that do not overlap.
abbrev pub Apart : ℕ → ℕ → ℕ → ℕ → Type 0
Apart a n b m = (a + n ≤ b) ⊎ (b + m ≤ a)

abbrev pub w16 : ℕ → ℕ
w16 n = n % 2 ^ 16

abbrev pub w32 : ℕ → ℕ
w32 n = n % 2 ^ 32

abbrev pub w64 : ℕ → ℕ
w64 n = n % 2 ^ 64

-- What `return -1` gives as a uint64_t or a size_t.
abbrev pub minus_one : ℕ
minus_one = 2 ^ 64 - 1

-- An int result seen as a uint64_t: the low 32 bits, sign-extended.
abbrev pub sign_extend : ℕ → ℕ
sign_extend n = if ltb (w32 n) (2 ^ 31) then w32 n else w32 n + (2 ^ 64 - 2 ^ 32)

-- A little-endian uint16_t, uint32_t at an offset of a buffer.
abbrev pub le16 : Bytes → ℕ → ℕ
le16 b i = b i % 256 + b (i + 1) % 256 * 2 ^ 8

abbrev pub le32 : Bytes → ℕ → ℕ
le32 b i = b i % 256 + b (i + 1) % 256 * 2 ^ 8 + b (i + 2) % 256 * 2 ^ 16 + b (i + 3) % 256 * 2 ^ 24

-- Byte `k` of a little-endian word.
abbrev pub byte_of : ℕ → ℕ → ℕ
byte_of v k = v / 2 ^ (8 * k) % 256

-- A store of a little-endian uint32_t.
abbrev pub put32 : Bytes → ℕ → ℕ → Bytes
put32 b i v j = if leb i j && ltb j (i + 4) then byte_of v (j - i) else b j

-- Words of equal bytes are equal.
pub le16_cong : (f g : Bytes) (i k : ℕ) → f i ≡ g k → f (i + 1) ≡ g (k + 1) → le16 f i ≡ le16 g k
le16_cong f g i k p q = rw (p, q)

pub le32_cong :
    (f g : Bytes) (i k : ℕ)
    → f i ≡ g k
    → f (i + 1) ≡ g (k + 1)
    → f (i + 2) ≡ g (k + 2)
    → f (i + 3) ≡ g (k + 3)
    → le32 f i ≡ le32 g k
le32_cong f g i k p q r s = rw (p, q, r, s)

pub put32_inside : (b : Bytes) (f v k : ℕ) → k < 4 → put32 b f v (f + k) ≡ byte_of v k
put32_inside b f v k h =
    let e : f + k - f ≡ k = omega arith in
    let test : (leb f (f + k) && ltb (f + k) (f + 4)) ≡ true = ground arith in rw (test, e)

pub put32_outside : (b : Bytes) (f v j : ℕ) → (j < f) ⊎ (f + 4 ≤ j) → put32 b f v j ≡ b j
put32_outside b f v j h = ground arith

-- What was stored is read back.
pub le32-put32 : (b : Bytes) (f v : ℕ) → le32 (put32 b f v) f ≡ w32 v
le32-put32 b f v =
    let e0 : put32 b f v f ≡ byte_of v 0 = ground arith in
    rw
      (
        e0,
        put32_inside b f v 1 (omega arith),
        put32_inside b f v 2 (omega arith),
        put32_inside b f v 3 (omega arith),
      )
      (omega arith)

-- A little-endian uint64_t as two words.
abbrev pub le64 : Bytes → ℕ → ℕ
le64 b i = le32 b i + le32 b (i + 4) * 2 ^ 32

abbrev pub put64 : Bytes → ℕ → ℕ → Bytes
put64 b i v = put32 (put32 b i v) (i + 4) (v / 2 ^ 32)

pub le64-put64 : (b : Bytes) (f v : ℕ) → le64 (put64 b f v) f ≡ w64 v
le64-put64 b f v =
    let below = put32_outside (put32 b f v) (f + 4) (v / 2 ^ 32) in
    let low : le32 (put64 b f v) f ≡ le32 (put32 b f v) f =
      le32_cong (put64 b f v) (put32 b f v) f f (below f (inl (omega arith)))
        (below (f + 1) (inl (omega arith))) (below (f + 2) (inl (omega arith)))
        (below (f + 3) (inl (omega arith))) in
    rw (low, le32-put32 b f v, le32-put32 (put32 b f v) (f + 4) (v / 2 ^ 32)) (omega arith)

pub put64_outside : (b : Bytes) (f v j : ℕ) → (j < f) ⊎ (f + 8 ≤ j) → put64 b f v j ≡ b j
put64_outside b f v j h = ground arith
