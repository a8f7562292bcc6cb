-- ===== src/Io/View.antt =====
-- What src/io.c promises a program that has a file open: an array of bytes and a position. Neither a
-- read nor a write moves the position.
pub mod Open
pub mod Opening
pub mod Reads
pub mod Writes
pub mod Refine
pub mod Ring
pub mod Beside
pub mod Interleaved
use demandos.Prelude.{
  ℕ, ◌+◌, ◌-◌, ◌^◌, ◌≤◌, ◌<◌, Bytes, Bool, List, [], ◌∷◌, ltb, leb, ◌&&◌, if◌then◌else◌, w64, zeros,
}

pub record OpenFile : Type 0 where
  pub content : ℕ → ℕ
  pub pos : ℕ

-- The calls read, write and lseek, the last with SEEK_SET and SEEK_CUR.
pub data FileCall : Type 0 where
  file_read : ℕ → Bytes → FileCall
  file_write : ℕ → Bytes → FileCall
  file_set : ℕ → FileCall
  file_move : ℕ → FileCall

-- What a call gives the program: its result, and the buffer as it is after the call.
abbrev pub Reply : Type 0
Reply = ℕ × Bytes

abbrev pub splice : (ℕ → ℕ) → ℕ → ℕ → Bytes → ℕ → ℕ
splice content pos size buf p = if leb pos p && ltb p (pos + size) then buf (p - pos) else content p

unfoldable pub reply : OpenFile → FileCall → Reply × OpenFile
reply v (file_read size buf) = ((size, λ i. if ltb i size then v.content (v.pos + i) else buf i), v)
reply v (file_write size buf) =
    ((size, buf), record v { content = splice v.content v.pos size buf })
reply v (file_set offset) = ((offset, zeros), record v { pos = offset })
reply v (file_move offset) =
    ((w64 (v.pos + offset), zeros), record v { pos = w64 (v.pos + offset) })

-- The calls with the time at which each is made.
unfoldable pub replies : OpenFile → List (ℕ × FileCall) → List Reply × OpenFile
unfolding reply
replies v [] = ([], v)
replies v ((now, c) ∷ calls) =
    let (a, v') = reply v c in let (rest, v'') = replies v' calls in (a ∷ rest, v'')

-- A call stays within the first `size_of_file` bytes and its numbers fit an int.
abbrev pub Fits : ℕ → OpenFile → FileCall → Type 0
Fits size_of_file v (file_read size buf) = (size < 2 ^ 31) × (v.pos + size ≤ size_of_file)
Fits size_of_file v (file_write size buf) = (size < 2 ^ 31) × (v.pos + size ≤ size_of_file)
Fits size_of_file v (file_set offset) = offset < 2 ^ 31
Fits size_of_file v (file_move offset) = w64 (v.pos + offset) < 2 ^ 31

unfoldable pub AllFit : ℕ → OpenFile → List (ℕ × FileCall) → Type 0
unfolding reply
AllFit size_of_file v [] = Unit
AllFit size_of_file v ((now, c) ∷ calls) =
    Fits size_of_file v c × AllFit size_of_file (reply v c).1 calls
