-- ===== src/Tests/Printing.antt =====
-- What is printed of 1234, of a buffer and of a string.
use demandos.Prelude.{ℕ, ◌<◌, ◌≡◌, arith, refl, Bytes, ◌==◌, if◌then◌else◌, [], ◌∷◌, ◌++◌}
use demandos.Print.{eprint_num, eprint_bytes}
use demandos.Print.Numbers.{scan_bytes, scan_bytes-eprint_bytes}
use demandos.Print.Strings.{HoldsFrom, ends, goes_on}
use demandos.Tests.Devices.{bytes_at}

num_1234 : eprint_num 1234 ≡ 126 ∷ 50 ∷ 51 ∷ 52 ∷ []
unfolding eprint_num
num_1234 = refl

abbrev pair : Bytes
pair i = if i == 0 then 7 else 255

pair_small : (j : ℕ) → pair j < 256
pair_small j = ground arith

scan_bytes-eprint_bytes_example : scan_bytes 2 (eprint_bytes pair 2 0 ++ (10 ∷ [])) ≡ 7 ∷ 255 ∷ []
scan_bytes-eprint_bytes_example = scan_bytes-eprint_bytes pair 2 0 (10 ∷ []) pair_small

-- "hi"
abbrev greeting : Bytes
greeting = bytes_at ((0, 104) ∷ (1, 105) ∷ [])

greeting_held : HoldsFrom greeting 0 (104 ∷ 105 ∷ [])
greeting_held = goes_on (omega arith) (goes_on (omega arith) (ends refl))
