-- ===== src/Print/Numbers.antt =====
-- What `eprint_num` prints, read back.
use demandos.Prelude.{
  ℕ, zero, suc, ◌+◌, ◌-◌, ◌*◌, ◌/◌, ◌%◌, ◌<◌, ◌≡◌, refl, ap, arith, inl, inr, Bytes, List, [], ◌∷◌,
  ◌++◌, Bool, true, false, Bool-cases, leb, ◌==◌, if◌then◌else◌,
}
use mathlib.Core.List.{append_assoc}
use demandos.Print.{tilde, digit_zero, eprint_num, eprint_bytes}

-- A reader of the numbers in a text: it takes three digits after a tilde that may be missing, and gives
-- the number, whether there was a tilde, and what is left of the text.
abbrev pub three_digits : Bool → List ℕ → (Bool × ℕ × List ℕ)
three_digits more (a ∷ b ∷ c ∷ text) =
    (more, (a - digit_zero) * 100 + (b - digit_zero) * 10 + (c - digit_zero), text)
three_digits more text = (more, 0, text)

abbrev pub drop_one : List ℕ → List ℕ
drop_one [] = []
drop_one (c ∷ text) = text

abbrev pub scan_num : List ℕ → (Bool × ℕ × List ℕ)
scan_num [] = (false, 0, [])
scan_num (c ∷ text) = if c == tilde then three_digits true text else three_digits false (c ∷ text)

digits_value :
    (low : ℕ)
    → low < 1000
    → let rest = low - low / 100 * 100 in
      (digit_zero + low / 100 - digit_zero) * 100
        + (digit_zero + rest / 10 - digit_zero) * 10
        + (digit_zero + (rest - rest / 10 * 10) - digit_zero)
      ≡ low
digits_value low h = omega arith

-- What is printed for a number reads back as the number modulo 1000, with the mark for more just where
-- the number is 1000 or above; what is printed after it is not read.
pub scan_num-eprint_num :
    (num : ℕ) (text : List ℕ) → scan_num (eprint_num num ++ text) ≡ (leb 1000 num, num % 1000, text)
unfolding eprint_num
scan_num-eprint_num num text =
    let value = digits_value (num % 1000) (omega arith) in
    let digit : ((digit_zero + num % 1000 / 100) == tilde) ≡ false = ground arith in
    elim (Bool-cases (num == num % 1000)) [
      | inl low ↦
          let few : leb 1000 num ≡ false = ground arith in
          rw (low, digit, few) (ap (λ (v : ℕ). (false, v, text)) value)
      | inr high ↦
          let many : leb 1000 num ≡ true = ground arith in
          rw (high, many) (ap (λ (v : ℕ). (true, v, text)) value)
    ]

-- The numbers of a buffer, each read up to the dash after it.
abbrev pub scan_bytes : ℕ → List ℕ → List ℕ
scan_bytes zero text = []
scan_bytes (suc size) text =
    let (_, value, rest) = scan_num text in value ∷ scan_bytes size (drop_one rest)

abbrev pub bytes_of : Bytes → ℕ → ℕ → List ℕ
bytes_of buffer zero i = []
bytes_of buffer (suc size) i = buffer i ∷ bytes_of buffer size (i + 1)

-- What the loop of `eprint_buffer` prints of a buffer of bytes reads back as these bytes, in
-- order.
pub scan_bytes-eprint_bytes :
    (buffer : Bytes) (size i : ℕ) (text : List ℕ)
    → ((j : ℕ) → buffer j < 256)
    → scan_bytes size (eprint_bytes buffer size i ++ text) ≡ bytes_of buffer size i
unfolding eprint_bytes
scan_bytes-eprint_bytes buffer zero i text small = refl
scan_bytes-eprint_bytes buffer (suc size) i text small =
    let more = eprint_bytes buffer size (i + 1) ++ text in
    let at : (eprint_num (buffer i) ++ (45 ∷ eprint_bytes buffer size (i + 1))) ++ text
        ≡ eprint_num (buffer i) ++ (45 ∷ more) =
      append_assoc (eprint_num (buffer i)) _ text in
    let byte : buffer i % 1000 ≡ buffer i = omega (arith, small i) in
    rw (at, scan_num-eprint_num (buffer i) (45 ∷ more), byte)
      (ap (λ t. buffer i ∷ t) (scan_bytes-eprint_bytes buffer size (i + 1) text small))
