-- ===== src/Ext2/Path/Laws.antt =====
-- How a path falls into components, and how a walk over components composes.
use demandos.Prelude.{
  ℕ, ◌≡◌, refl, Bytes, Option, some, List, [], ◌∷◌, ◌++◌, ◌==◌, if◌then◌else◌, ◌>>=◌, Bool-cases,
  Option-cases, inl, inr,
}
use demandos.Blk.Device.{BlockDevice}
use demandos.Ext2.Dirent.{inode_from_dir}
use demandos.Ext2.Path.{slash, emit, tokens_from, tokens, written, follow}

emit-append : (part : List ℕ) (xs ys : List (List ℕ)) → emit part (xs ++ ys) ≡ emit part xs ++ ys
emit-append [] xs ys = refl
emit-append (c ∷ cs) xs ys = refl

tokens_from-append :
    (part p q : List ℕ) → tokens_from part (p ++ slash ∷ q) ≡ tokens_from part p ++ tokens_from [] q
unfolding tokens_from
tokens_from-append part [] q = emit-append part [] (tokens_from [] q)
tokens_from-append part (c ∷ p) q = elim (Bool-cases (c == slash)) [
  | inl cut ↦
      rw (cut, tokens_from-append [] p q) (emit-append part (tokens_from [] p) (tokens_from [] q))
  | inr kept ↦ rw kept (tokens_from-append (part ++ c ∷ []) p q)
]

-- A path that is put together at a slash has the components of its parts, in order. So slashes at the
-- ends of a path, and several in a row, make no difference.
tokens-append : (p q : List ℕ) → tokens (p ++ slash ∷ q) ≡ tokens p ++ tokens q
unfolding tokens
tokens-append p q = tokens_from-append [] p q

module _ (dev : BlockDevice) (uninit : Bytes) where
  open dev use {State}

  -- Following two runs of components is following the first and, if that finds an inode, following the
  -- second from there; a failure, or a search without end, in the first is one of the whole.
  follow-append :
      (s : State) (superblock inode : Bytes) (ino : Option ℕ) (p q : List (List ℕ))
      → follow dev uninit s superblock inode ino (p ++ q) ≡ (
          follow dev uninit s superblock inode ino p >>= λ r.
          if r.0.result then follow dev uninit r.1 superblock r.0.inode r.0.ino q else some r)
  unfolding follow
  follow-append s superblock inode ino [] q = refl
  follow-append s superblock inode ino (c ∷ p) q =
      elim (Option-cases (inode_from_dir dev uninit s superblock c inode inode)) [
        | inl never ↦ rw never
        | inr ((f, s'), got) ↦ elim (Bool-cases f.result) [
          | inl on ↦ rw (got, on) (follow-append s' superblock f.inode (written f.ino ino) p q)
          | inr stop ↦ rw (got, stop)
        ]
      ]
