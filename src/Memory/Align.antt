-- ===== src/Memory/Align.antt =====
-- The macro ALIGN_UP of include/memory.h, on unsigned words of a given number of bits.
use native.Mathlib.Nat.{pow-suc, mul-one}
use Prim.Native.Nat.{digits, bit_and-bitwise}
use demandos.Prelude.{
  ℕ, zero, suc, ◌+◌, ◌-◌, ◌*◌, ◌/◌, ◌%◌, ◌^◌, ◌≤◌, ◌<◌, ◌≡◌, ◌∙◌, refl, ap, arith, min, bit_and,
}

-- ((start + align - 1) & ~(align - 1))
unfoldable pub align_up : ℕ → ℕ → ℕ → ℕ
align_up bits start align =
    bit_and ((start + align + (2 ^ bits - 1)) % 2 ^ bits)
      (2 ^ bits - 1 - (align + (2 ^ bits - 1)) % 2 ^ bits)

-- The digits that `bit_and` takes, with a count of them.
and_digits : ℕ → ℕ → ℕ → ℕ
and_digits c x m = digits (λ b. zero) min c x m

and_digits-zero : (c m : ℕ) → and_digits c 0 m ≡ 0
unfolding and_digits
and_digits-zero zero m = refl
and_digits-zero (suc c) m = refl

and_digits-suc :
    (c x m : ℕ)
    → and_digits (suc c) (suc x) m ≡ and_digits c (suc x / 2) (m / 2) * 2 + min (suc x % 2) (m % 2)
unfolding and_digits
and_digits-suc c x m = refl

bit_and-digits : (x m : ℕ) → bit_and x m ≡ and_digits x x m
unfolding and_digits
bit_and-digits x m = bit_and-bitwise x m

pow-pos : (h : ℕ) → 0 < 2 ^ h
pow-pos zero = omega arith
pow-pos (suc h) = omega (arith, pow-suc 2 h, pow-pos h)

-- Against ones in all of its digits a number stays.
and_digits-ones : (c h x : ℕ) → x ≤ c → x < 2 ^ h → and_digits c x (2 ^ h - 1) ≡ x
and_digits-ones c h zero le lt = and_digits-zero c _
and_digits-ones zero h (suc x) le lt = absurd (omega arith)
and_digits-ones (suc c) zero (suc x) le lt = absurd (omega arith)
and_digits-ones (suc c) (suc h) (suc x) le lt =
    let p = pow-suc 2 h in
    let pos = pow-pos h in
    let half : (2 ^ suc h - 1) / 2 ≡ 2 ^ h - 1 = omega arith in
    rw (and_digits-suc c x _, half, and_digits-ones c h (suc x / 2) (omega arith) (omega arith))
      (omega arith)

multiple-suc : (q k : ℕ) → q * 2 ^ suc k ≡ q * 2 ^ k * 2
multiple-suc q k = rw (pow-suc 2 k) (omega arith)

-- Against `h` ones above `k` zeros it falls to the next multiple of 2 ^ k.
and_digits-mask :
    (k h c x : ℕ)
    → x ≤ c
    → x < 2 ^ h * 2 ^ k
    → (q : ℕ) × (and_digits c x ((2 ^ h - 1) * 2 ^ k) ≡ q * 2 ^ k)
      × (and_digits c x ((2 ^ h - 1) * 2 ^ k) ≤ x)
      × (x < and_digits c x ((2 ^ h - 1) * 2 ^ k) + 2 ^ k)
and_digits-mask zero h c x le lt =
    let e = and_digits-ones c h x le (omega arith) in
    rw (mul-one (2 ^ h - 1), e) (x, omega arith, omega arith, omega arith)
and_digits-mask (suc k) h c zero le lt =
    rw (and_digits-zero c _) (0, omega arith, omega arith, omega (arith, pow-pos (suc k)))
and_digits-mask (suc k) h zero (suc x) le lt = absurd (omega arith)
and_digits-mask (suc k) h (suc c) (suc x) le lt =
    let p = pow-suc 2 k in
    let m = multiple-suc (2 ^ h - 1) k in
    let n = multiple-suc (2 ^ h) k in
    let half : (2 ^ h - 1) * 2 ^ k * 2 / 2 ≡ (2 ^ h - 1) * 2 ^ k = omega arith in
    let (q, e, low, high) = and_digits-mask k h c (suc x / 2) (omega arith) (omega arith) in
    rw (m, and_digits-suc c x _, half)
      (q, omega (arith, multiple-suc q k), omega arith, omega arith)

wrap_once : (x m : ℕ) → x < m → (x + m) % m ≡ x
wrap_once x m h = grind arith

sub_mul_one : (a b : ℕ) → (a - 1) * b ≡ a * b - b
sub_mul_one zero b = omega arith
sub_mul_one (suc a) b = let e : suc a - 1 ≡ a = omega arith in rw e (omega arith)

-- ALIGN_UP gives the least multiple of 2 ^ k that is not below `start`, where the sum does not
-- wrap. The word has h + k bits.
pub align_up_lem :
    (bits h k start : ℕ)
    → 2 ^ h * 2 ^ k ≡ 2 ^ bits
    → start + 2 ^ k ≤ 2 ^ bits
    → (q : ℕ) × (align_up bits start (2 ^ k) ≡ q * 2 ^ k)
      × (start ≤ align_up bits start (2 ^ k))
      × (align_up bits start (2 ^ k) < start + 2 ^ k)
unfolding align_up
align_up_lem bits h k start e fits =
    let p = pow-pos k in
    let pb = pow-pos bits in
    let x = start + 2 ^ k - 1 in
    let sum : (start + 2 ^ k + (2 ^ bits - 1)) % 2 ^ bits ≡ x =
      ap (λ n. n % 2 ^ bits) (omega arith) ∙ wrap_once x (2 ^ bits) (omega arith) in
    let ones : (2 ^ k + (2 ^ bits - 1)) % 2 ^ bits ≡ 2 ^ k - 1 =
      ap (λ n. n % 2 ^ bits) (omega arith) ∙ wrap_once (2 ^ k - 1) (2 ^ bits) (omega arith) in
    let mask : 2 ^ bits - 1 - (2 ^ k - 1) ≡ (2 ^ h - 1) * 2 ^ k =
      omega (arith, sub_mul_one (2 ^ h) (2 ^ k)) in
    let (q, multiple, low, high) = and_digits-mask k h x x (omega arith) (omega arith) in
    rw (sum, ones, mask, bit_and-digits x _) (q, multiple, omega arith, omega arith)
