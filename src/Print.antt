-- ===== src/Print.antt =====
-- The emergency console of src/e.c: what is printed is the list of the characters that are given to
-- `eprint`, which is a firmware call.
pub mod Numbers
pub mod Strings
use demandos.Prelude.{
  ℕ, zero, suc, ◌+◌, ◌-◌, ◌*◌, ◌/◌, ◌%◌, Bytes, List, [], ◌∷◌, ◌++◌, Bool, ltb, ◌==◌, if◌then◌else◌,
}

abbrev pub tilde : ℕ
tilde = 126

abbrev pub digit_zero : ℕ
digit_zero = 48

-- The three low decimal digits, after a tilde where there are more.
unfoldable pub eprint_num : ℕ → List ℕ
eprint_num num =
    let low = num % 1000 in
    let hundreds = low / 100 in
    let rest = low - hundreds * 100 in
    let tens = rest / 10 in
    let ones = rest - tens * 10 in
    (if num == low then [] else tilde ∷ [])
    ++ ((digit_zero + hundreds) ∷ (digit_zero + tens) ∷ (digit_zero + ones) ∷ [])

-- The loop of `eprint_str` on fuel, from the i-th character on.
unfoldable pub eprint_str_from : ℕ → Bytes → ℕ → List ℕ
eprint_str_from zero str i = []
eprint_str_from (suc fuel) str i =
    let rest = eprint_str_from fuel str (i + 1) in if str i == 0 then [] else str i ∷ rest

unfoldable pub eprint_str : ℕ → Bytes → List ℕ
unfolding eprint_str_from
eprint_str fuel str = eprint_str_from fuel str 0

-- The loop of `eprint_strn`, which looks at the i-th character before it compares i with n; it goes
-- around n times at most, so `n` rounds and the last test are enough.
unfoldable pub eprint_strn_from : ℕ → Bytes → ℕ → ℕ → List ℕ
eprint_strn_from zero str n i = []
eprint_strn_from (suc rounds) str n i =
    let rest = eprint_strn_from rounds str n (i + 1) in
    if str i == 0 then [] else (if ltb i n then str i ∷ rest else [])

unfoldable pub eprint_strn : Bytes → ℕ → List ℕ
unfolding eprint_strn_from
eprint_strn str n = eprint_strn_from (n + 1) str n 0

unfoldable pub eprint_bytes : Bytes → ℕ → ℕ → List ℕ
unfolding eprint_num
eprint_bytes buffer zero i = []
eprint_bytes buffer (suc size) i = eprint_num (buffer i) ++ (45 ∷ eprint_bytes buffer size (i + 1))

unfoldable pub eprint_buffer : ℕ → Bytes → Bytes → ℕ → List ℕ
unfolding eprint_str eprint_bytes
eprint_buffer fuel msg buffer size =
    eprint_str fuel msg ++ (58 ∷ 10 ∷ (eprint_bytes buffer size 0 ++ (10 ∷ [])))
