-- ===== src/Ext2/Dirent/Debug.antt =====
-- `debug_dirent`, which prints the names in a directory, and what it prints of a block.
use demandos.Prelude.{
  ℕ, zero, suc, ◌+◌, ◌*◌, ◌%◌, ◌≤◌, ◌<◌, ◌≡◌, ◌⊎◌, inl, inr, ◌∙◌, refl, ap, fun_ext, arith, Bytes,
  Bool, true, false, Option, none, some, List, [], ◌∷◌, ◌++◌, ltb, ltb→lt, Bool-cases, ◌==◌,
  if◌then◌else◌, ◌>>=◌, w32,
}
use demandos.Blk.Device.{BlockDevice}
use demandos.Blk.{read_sync}
use demandos.Ext2.Structs.{
  block_size, dirent_size, max_direct_blocks, i_block, rec_len, name_len, name_byte,
}
use demandos.Ext2.Dirent.{copy_entry}
use demandos.Ext2.Dirent.Walk.{
  Tiled, end, entry, offsets, Agrees, copied, behind, copied_len, copied_name_len,
}
use demandos.Print.{eprint_str}

-- The array `filename`, which is zero but for the name that is copied into it.
abbrev pub filename_size : ℕ
filename_size = 255

abbrev pub filename : Bytes → ℕ → Bytes
filename buffer o j = if ltb j (name_len buffer o) then name_byte buffer o j else 0

-- Whether a string has its end within so many bytes from the i-th on.
unfoldable pub has_end : ℕ → Bytes → ℕ → Bool
has_end zero str i = false
has_end (suc n) str i = let rest = has_end n str (i + 1) in if str i == 0 then true else rest

-- The name of the entry at an offset, as it is printed, and the end of the line.
abbrev pub name_line : Bytes → ℕ → List ℕ
name_line buffer o = eprint_str filename_size (filename buffer o) ++ (10 ∷ [])

-- What is printed of an entry, where printing is compiled in (`debug`: DEBUG_LEVEL > DEBUG_TRACE).
-- `none` is a name that fills the array, which is then printed past its end.
unfoldable pub print_name : Bool → Bytes → ℕ → Option (List ℕ)
unfolding has_end
print_name debug buffer o =
    let line =
      if has_end filename_size (filename buffer o) 0 then some (name_line buffer o) else none in
    if debug then line else some []

-- The `while` loop over a block, with what it prints. `none` is a loop that stays at an entry whose
-- record length is 0, or a name that is printed past its array.
unfoldable pub print_block : Bool → ℕ → Bytes → ℕ → Option (List ℕ)
unfolding copy_entry print_name
print_block debug zero buffer o = if ltb o block_size then none else some []
print_block debug (suc rounds) buffer o =
    let de = copy_entry buffer o in
    let rest = print_block debug rounds de (o + rec_len de 0) in
    let lines = print_name debug de 0 >>= λ line. rest >>= λ text. some (line ++ text) in
    if ltb o block_size then lines else some []

module _ (dev : BlockDevice) (uninit : Bytes) (debug : Bool) where
  open dev use {State}

  -- The `for` loop over the blocks from the `o`-th on. The result of the read is not tested.
  unfoldable pub print_blocks : ℕ → State → Bytes → ℕ → Option (List ℕ × State)
  print_blocks zero s inode o = some ([], s)
  print_blocks (suc blocks) s inode o =
      let (_, buffer, s') = read_sync dev s uninit (w32 (i_block inode o * 1024)) block_size in
      let rest = print_blocks blocks s' inode (o + 1) in
      let lines =
        print_block debug block_size buffer 0 >>= λ text. rest >>= λ r. some (text ++ r.0, r.1) in
      if i_block inode o == 0 then some ([], s) else lines

  unfoldable pub debug_dirent : State → Bytes → Option (List ℕ × State)
  unfolding print_blocks
  debug_dirent s inode = print_blocks max_direct_blocks s inode 0

-- The lines of the entries at some offsets.
abbrev pub listing : Bytes → List ℕ → List ℕ
listing b [] = []
listing b (o ∷ os) = name_line b o ++ listing b os

module _ (buffer b : Bytes) (o : ℕ) (agrees : Agrees buffer b o)
    (start : (o ≡ 0) ⊎ (dirent_size ≤ o)) (long : dirent_size + name_len b o ≤ rec_len b o)
    (fits : o + rec_len b o ≤ block_size) where
  copied_filename : filename (copy_entry buffer o) 0 ≡ filename b o
  copied_filename = fun_ext (λ j.
      rw (copied_name_len buffer b o agrees start long fits)
        (elim (Bool-cases (ltb j (name_len b o))) [
          | inr past ↦ rw past refl
          | inl inside ↦
              let h = ltb→lt j (name_len b o) inside in
              rw inside (
                ap (λ n. n % 256)
                  (copied buffer b o agrees start long fits (0 + dirent_size + j) (omega arith)
                    ∙ ap b (omega arith)))
        ]))

-- The names at some offsets leave room for an end in the array.
unfoldable pub AllShort : Bytes → List ℕ → Type 0
AllShort b [] = Unit {0}
AllShort b (o ∷ os) = (name_len b o < filename_size) × AllShort b os

has_end_found : (n : ℕ) (str : Bytes) (i k : ℕ) → k < n → str (i + k) ≡ 0 → has_end n str i ≡ true
unfolding has_end
has_end_found zero str i k h e = absurd (omega arith)
has_end_found (suc n) str i zero h e =
    let here : (str i == 0) ≡ true = ground (arith, e) in rw here refl
has_end_found (suc n) str i (suc k) h e = elim (Bool-cases (str i == 0)) [
  | inl here ↦ rw here refl
  | inr other ↦ rw other (has_end_found n str (i + 1) k (omega arith) (ap str (omega arith) ∙ e))
]

-- What a build prints of an entry whose name is short.
abbrev pub shown : Bool → List ℕ → List ℕ
shown debug lines = if debug then lines else []

print_name_short :
    (debug : Bool) (b : Bytes) (o : ℕ)
    → name_len b o < filename_size
    → print_name debug b o ≡ some (shown debug (name_line b o))
unfolding print_name
print_name_short false b o h = refl
print_name_short true b o h =
    let past : ltb (0 + name_len b o) (name_len b o) ≡ false = ground arith in
    let ends : has_end filename_size (filename b o) 0 ≡ true =
      has_end_found filename_size (filename b o) 0 (name_len b o) h (rw past refl) in
    rw ends refl

shown_++ : (debug : Bool) (x y : List ℕ) → shown debug x ++ shown debug y ≡ shown debug (x ++ y)
shown_++ false x y = refl
shown_++ true x y = refl

print_from-listing :
    {b : Bytes} {o : ℕ} (t : Tiled b o) (debug : Bool) (rounds : ℕ) (buffer : Bytes)
    → AllShort b (offsets t)
    → Agrees buffer b o
    → (o ≡ 0) ⊎ (dirent_size ≤ o)
    → block_size ≤ o + rounds
    → print_block debug rounds buffer o ≡ some (shown debug (listing b (offsets t)))
unfolding print_block offsets AllShort print_name
print_from-listing (end h) false zero buffer short agrees start enough = ground arith
print_from-listing (end h) true zero buffer short agrees start enough = ground arith
print_from-listing (end h) false (suc rounds) buffer short agrees start enough = ground arith
print_from-listing (end h) true (suc rounds) buffer short agrees start enough = ground arith
print_from-listing (entry lt long fits rest) debug zero buffer short agrees start enough =
    absurd (omega arith)
print_from-listing {b} {o} (entry lt long fits rest) debug (suc rounds) buffer short agrees start
      enough =
    let inside : ltb o block_size ≡ true = ground arith in
    let de = copy_entry buffer o in
    let same_name = copied_filename buffer b o agrees start long fits in
    let same_len = copied_name_len buffer b o agrees start long fits in
    let line : print_name debug de 0 ≡ some (shown debug (name_line b o)) =
      print_name_short debug de 0 (rw same_len short.0)
      ∙ ap (λ f. some (shown debug (eprint_str filename_size f ++ (10 ∷ [])))) same_name in
    let ih =
      print_from-listing rest debug rounds de short.1 (behind buffer b o agrees start long fits)
        (inr (omega arith)) (omega arith) in
    rw (inside, line, copied_len buffer b o agrees start long fits, ih)
      (ap some (shown_++ debug (name_line b o) (listing b (offsets rest))))

-- On a block that is filled with entries, each long enough for its name and each name of fewer than 255
-- bytes, the loop of `debug_dirent` ends, although it overwrites its own buffer; in a build with
-- DEBUG_LEVEL > DEBUG_TRACE it prints the names of all the entries, in the order of the block as it was
-- read, each in a line, and in any other build nothing.
pub print_block-listing :
    (debug : Bool) (b : Bytes) (t : Tiled b 0)
    → AllShort b (offsets t)
    → print_block debug block_size b 0 ≡ some (if debug then listing b (offsets t) else [])
print_block-listing debug b t short =
    print_from-listing t debug block_size b short (λ j h k. refl) (inl refl) (omega arith)
