-- ===== src/Ext2/Dirent/Walk.antt =====
-- Searching a block while its buffer is overwritten comes to the same as searching the block.
use demandos.Prelude.{
  ℕ, zero, suc, ◌+◌, ◌-◌, ◌%◌, ◌≤◌, ◌<◌, ◌≡◌, ◌⊎◌, inl, inr, ◌∙◌, refl, ap, arith, Bytes, true,
  List, [], ◌∷◌, copy, copy_inside, copy_after, ltb, if◌then◌else◌, dec_lt, le16_cong, le32_cong,
}
use demandos.Ext2.Structs.{block_size, dirent_size, dirent_inode, rec_len, name_len, name_byte}
use demandos.Ext2.Dirent.{name_matches, copy_entry, search_block, Search, found, missing}
use demandos.Ext2.Dirent.Names.{name_matches_cong}

-- From `o` on the block is filled with entries, each long enough for its name, up to its end.
pub data Tiled (b : Bytes) : ℕ → Type 0 where
  end : {o : ℕ} → o ≡ block_size → Tiled b o
  entry :
      {o : ℕ}
      → o < block_size
      → dirent_size + name_len b o ≤ rec_len b o
      → o + rec_len b o ≤ block_size
      → Tiled b (o + rec_len b o)
      → Tiled b o

unfoldable pub offsets : {b : Bytes} {o : ℕ} → Tiled b o → List ℕ
offsets (end h) = []
offsets {o = o} (entry lt long fits rest) = o ∷ offsets rest

-- The first entry that the comparison accepts.
pub lookup : Bytes → List ℕ → List ℕ → Search
lookup b path [] = missing
lookup b path (o ∷ os) =
    let rest = lookup b path os in
    if name_matches (name_len b o) (name_byte b o) 0 path then found (dirent_inode b o) else rest

-- The part of the buffer that has not been passed is as it was read.
abbrev pub Agrees : Bytes → Bytes → ℕ → Type 0
Agrees buffer b o = (j : ℕ) → o ≤ j → j < block_size → buffer j ≡ b j

module _ (buffer b : Bytes) (o : ℕ) (agrees : Agrees buffer b o)
    (start : (o ≡ 0) ⊎ (dirent_size ≤ o)) (long : dirent_size + name_len b o ≤ rec_len b o)
    (fits : o + rec_len b o ≤ block_size) where
  abbrev fixed : Bytes
  fixed = copy buffer 0 buffer o dirent_size

  fixed_front : (j : ℕ) → j < dirent_size → fixed j ≡ b (o + j)
  fixed_front j h =
      copy_inside buffer buffer 0 o dirent_size j (omega arith) (omega arith)
      ∙ agrees (o + (j - 0)) (omega arith) (omega arith)
      ∙ ap b (omega arith)

  fixed_rest : (j : ℕ) → o ≤ j → j < block_size → fixed j ≡ b j
  fixed_rest j h k = elim (dec_lt j dirent_size) [
    | yes p ↦ fixed_front j p ∙ ap b (omega arith)
    | no p ↦ copy_after buffer buffer 0 o dirent_size j (omega arith) ∙ agrees j h k
  ]

  fixed_len : rec_len fixed 0 ≡ rec_len b o
  fixed_len =
      le16_cong fixed b 4 (o + 4) (fixed_front 4 (omega arith))
        (fixed_front 5 (omega arith) ∙ ap b (omega arith))

  -- The entry is at the front of the buffer, and the entries behind it are untouched.
  pub copied : (j : ℕ) → j < rec_len b o → copy_entry buffer o j ≡ b (o + j)
  unfolding copy_entry
  copied j h = rw fixed_len (
      copy_inside fixed fixed 0 o (rec_len b o) j (omega arith) (omega arith)
      ∙ fixed_rest (o + (j - 0)) (omega arith) (omega arith)
      ∙ ap b (omega arith))

  pub behind : Agrees (copy_entry buffer o) b (o + rec_len b o)
  unfolding copy_entry
  behind j h k =
      rw fixed_len
        (copy_after fixed fixed 0 o (rec_len b o) j (omega arith) ∙ fixed_rest j (omega arith) k)

  pub copied_len : rec_len (copy_entry buffer o) 0 ≡ rec_len b o
  copied_len =
      le16_cong (copy_entry buffer o) b 4 (o + 4) (copied 4 (omega arith))
        (copied 5 (omega arith) ∙ ap b (omega arith))

  copied_inode : dirent_inode (copy_entry buffer o) 0 ≡ dirent_inode b o
  copied_inode =
      le32_cong (copy_entry buffer o) b 0 o (copied 0 (omega arith) ∙ ap b (omega arith))
        (copied 1 (omega arith)) (copied 2 (omega arith)) (copied 3 (omega arith))

  pub copied_name_len : name_len (copy_entry buffer o) 0 ≡ name_len b o
  copied_name_len = ap (λ n. n % 256) (copied 6 (omega arith))

  copied_hit :
      (path : List ℕ)
      → name_matches (name_len (copy_entry buffer o) 0) (name_byte (copy_entry buffer o) 0) 0 path
        ≡ name_matches (name_len b o) (name_byte b o) 0 path
  copied_hit path = rw copied_name_len (
      name_matches_cong (name_len b o) _ _ 0 path (λ j h k.
        ap (λ n. n % 256) (copied (0 + dirent_size + j) (omega arith) ∙ ap b (omega arith))))

search-lookup :
    {b : Bytes} {o : ℕ} (t : Tiled b o) (rounds : ℕ) (buffer : Bytes) (path : List ℕ)
    → Agrees buffer b o
    → (o ≡ 0) ⊎ (dirent_size ≤ o)
    → block_size ≤ o + rounds
    → search_block rounds buffer o path ≡ lookup b path (offsets t)
unfolding search_block lookup offsets
search-lookup (end h) zero buffer path agrees start enough = ground arith
search-lookup (end h) (suc rounds) buffer path agrees start enough = ground arith
search-lookup (entry lt long fits rest) zero buffer path agrees start enough = absurd (omega arith)
search-lookup {b} {o} (entry lt long fits rest) (suc rounds) buffer path agrees start enough =
    let inside : ltb o block_size ≡ true = ground arith in
    let de = copy_entry buffer o in
    let ih =
      search-lookup rest rounds de path (behind buffer b o agrees start long fits)
        (inr (omega arith)) (omega arith) in
    rw (
      inside,
      copied_hit buffer b o agrees start long fits path,
      copied_len buffer b o agrees start long fits,
      copied_inode buffer b o agrees start long fits,
      ih,
    )

-- On a block that is filled with entries the search ends, although it overwrites its own buffer, and
-- finds the first entry, in the order of the block as it was read, that the comparison accepts.
pub search_block-lookup :
    (b : Bytes) (t : Tiled b 0) (path : List ℕ)
    → search_block block_size b 0 path ≡ lookup b path (offsets t)
search_block-lookup b t path =
    search-lookup t block_size b path (λ j h k. refl) (inl refl) (omega arith)
