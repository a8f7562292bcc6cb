-- ===== src/Print/Strings.antt =====
-- What `eprint_str` and `eprint_strn` print of a C string.
use demandos.Prelude.{
  ℕ, zero, suc, ◌+◌, ◌-◌, ◌≤◌, ◌≡◌, ◌≢◌, ◌∙◌, refl, sym, ap, arith, inl, inr, Bytes, List, [], ◌∷◌,
  false, Bool-cases, ltb, ◌==◌,
}
use demandos.Print.{eprint_str_from, eprint_str, eprint_strn_from, eprint_strn}

-- Memory holds the string `text`, with its NUL, from the i-th place on.
pub data HoldsFrom (str : Bytes) : ℕ → List ℕ → Type 0 where
  ends : {i : ℕ} → str i ≡ 0 → HoldsFrom str i []
  goes_on :
      {i : ℕ} {text : List ℕ}
      → str i ≢ 0
      → HoldsFrom str (i + 1) text
      → HoldsFrom str i (str i ∷ text)

abbrev pub length : List ℕ → ℕ
length [] = 0
length (c ∷ text) = suc (length text)

abbrev pub take : ℕ → List ℕ → List ℕ
take zero text = []
take (suc n) [] = []
take (suc n) (c ∷ text) = c ∷ take n text

take_empty : (n : ℕ) → take n [] ≡ []
take_empty zero = refl
take_empty (suc n) = refl

eprint_str_from_lem :
    (fuel : ℕ) (str : Bytes) (i : ℕ) (text : List ℕ)
    → HoldsFrom str i text
    → length text ≤ fuel
    → eprint_str_from fuel str i ≡ text
unfolding eprint_str_from
eprint_str_from_lem zero str i [] (ends e) h = refl
eprint_str_from_lem zero str i _ (goes_on ne rest) h = ground arith
eprint_str_from_lem (suc fuel) str i [] (ends e) h = rw e refl
eprint_str_from_lem (suc fuel) str i _ (goes_on {text = text} ne rest) h =
    let some_char : (str i == 0) ≡ false = ground arith in
    rw some_char
      (ap (λ t. str i ∷ t) (eprint_str_from_lem fuel str (i + 1) text rest (omega arith)))

eprint_strn_from_lem :
    (rounds : ℕ) (str : Bytes) (n i : ℕ) (text : List ℕ)
    → HoldsFrom str i text
    → i + rounds ≡ n + 1
    → eprint_strn_from rounds str n i ≡ take (n - i) text
unfolding eprint_strn_from
eprint_strn_from_lem zero str n i text v h =
    let none_left : n - i ≡ 0 = omega arith in rw none_left refl
eprint_strn_from_lem (suc rounds) str n i [] (ends e) h = rw e (sym (take_empty (n - i)))
eprint_strn_from_lem (suc rounds) str n i _ (goes_on {text = text} ne rest) h =
    let some_char : (str i == 0) ≡ false = ground arith in
    rw some_char (elim (Bool-cases (ltb i n)) [
      | inl h' ↦
          let count : n - i ≡ suc (n - (i + 1)) = ground arith in
          rw (h', count)
            (ap (λ t. str i ∷ t)
              (eprint_strn_from_lem rounds str n (i + 1) text rest (omega arith)))
      | inr h' ↦ let none_left : n - i ≡ 0 = ground arith in rw (h', none_left) refl
    ])

-- Of a string in memory `eprint_strn` prints the first n characters, and `eprint_str`, with fuel
-- for its length, prints all of it.
eprint_strn-take :
    (fuel : ℕ) (str : Bytes) (n : ℕ) (text : List ℕ)
    → HoldsFrom str 0 text
    → length text ≤ fuel
    → (eprint_strn str n ≡ take n text) × (eprint_str fuel str ≡ text)
unfolding eprint_strn eprint_str
eprint_strn-take fuel str n text v h = (
  eprint_strn_from_lem (n + 1) str n 0 text v (omega arith) ∙ ap (λ k. take k text) (omega arith),
  eprint_str_from_lem fuel str 0 text v h,
)
