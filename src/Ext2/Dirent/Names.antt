-- ===== src/Ext2/Dirent/Names.antt =====
-- Which names the comparison of `inode_from_dir` accepts.
use demandos.Prelude.{
  ℕ, zero, suc, ◌+◌, ◌≤◌, ◌<◌, ◌≡◌, ◌≢◌, ◌↔◌, refl, arith, inl, inr, true, List, [], ◌∷◌, ◌==◌,
  Bool-cases, ==_iff,
}
use demandos.Ext2.Dirent.{name_matches}

pub name_matches_cong :
    (n : ℕ) (f g : ℕ → ℕ) (i : ℕ) (path : List ℕ)
    → ((j : ℕ) → i ≤ j → j < i + n → f j ≡ g j)
    → name_matches n f i path ≡ name_matches n g i path
unfolding name_matches
name_matches_cong zero f g i path same = refl
name_matches_cong (suc n) f g i [] same = rw (same i (omega arith) (omega arith))
name_matches_cong (suc n) f g i (c ∷ path) same = rw (
  same i (omega arith) (omega arith),
  name_matches_cong n f g (i + 1) path (λ j h k. same j (omega arith) (omega arith)),
)

-- The first n bytes of a name, from the i-th on.
abbrev pub spelled : ℕ → (ℕ → ℕ) → ℕ → List ℕ
spelled zero name i = []
spelled (suc n) name i = name i ∷ spelled n name (i + 1)

-- Whether a list starts with another.
pub data StartsWith : List ℕ → List ℕ → Type 0 where
  any : {path : List ℕ} → StartsWith path []
  same :
      {c d : ℕ} {path name : List ℕ}
      → c ≡ d
      → StartsWith path name
      → StartsWith (c ∷ path) (d ∷ name)

StartsWith-tail :
    (c d : ℕ) (path name : List ℕ)
    → StartsWith (c ∷ path) (d ∷ name)
    → (c ≡ d) × StartsWith path name
StartsWith-tail c d path name (same e h) = (e, h)

-- Of names without a NUL the comparison accepts exactly those with which the path's component starts:
-- the component itself, and every shorter name that is a beginning of it.
pub name_matches-StartsWith :
    (n : ℕ) (name : ℕ → ℕ) (i : ℕ) (path : List ℕ)
    → ((j : ℕ) → i ≤ j → j < i + n → name j ≢ 0)
    → (name_matches n name i path ≡ true) ↔ StartsWith path (spelled n name i)
unfolding name_matches
name_matches-StartsWith zero name i path ends = (λ e. any, λ h. refl)
name_matches-StartsWith (suc n) name i [] ends =
    (λ e. absurd (ends i (omega arith) (omega arith) ((==_iff (name i) 0).0 e)), λ h. elim h [ ])
name_matches-StartsWith (suc n) name i (c ∷ path) ends =
    let ih =
      name_matches-StartsWith n name (i + 1) path (λ j h k. ends j (omega arith) (omega arith)) in
    elim (Bool-cases (name i == c)) [
      | inl hit ↦
          let e : c ≡ name i = ground arith in
          rw hit (λ m. same e (ih.0 m), λ h. ih.1 (StartsWith-tail c (name i) path _ h).1)
      | inr miss ↦
          rw miss (λ m. cc, λ h. let e = (StartsWith-tail c (name i) path _ h).0 in ground arith)
    ]
