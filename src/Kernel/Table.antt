-- ===== src/Kernel/Table.antt =====
-- The table that `configure_syscall_handlers` of src/strap_handler.c makes.
use demandos.Prelude.{
  ℕ, zero, suc, ◌<◌, ◌≡◌, ◌≢◌, ◌∙◌, refl, sym, ap, arith, inl, inr, Bool, true, false, Option, none,
  some, List, [], ◌∷◌, Bool-cases, ◌==◌, ==_iff, ◌&&◌, not, if◌then◌else◌,
}
use mathlib.Core.List.{Memᴰ}
use mathlib.Core.List.Memᴰ
use demandos.Kernel.{SyscallHandler, unimplemented_f}
use demandos.Kernel.Dispatch.{
  Handlers, assign, all_unimplemented, assignments, assign_all, configure_syscall_handlers,
}

-- Whether a number is in a list of assignments, and whether no number is in it twice.
unfoldable is_assigned : ℕ → List (ℕ × SyscallHandler) → Bool
is_assigned n [] = false
is_assigned n ((m, h) ∷ rest) = let later = is_assigned n rest in if n == m then true else later

unfoldable are_distinct : List (ℕ × SyscallHandler) → Bool
unfolding is_assigned
are_distinct [] = true
are_distinct ((m, h) ∷ rest) = not (is_assigned m rest) && are_distinct rest

assign-own : (table : Handlers) (n : ℕ) (h : SyscallHandler) → assign table n h n ≡ some h
assign-own table n h = let own : (n == n) ≡ true = ground arith in rw own refl

assign-other :
    (table : Handlers) (n i : ℕ) (h : SyscallHandler)
    → (i == n) ≡ false
    → assign table n h i ≡ table i
assign-other table n i h other = rw other refl

all_unimplemented_lem :
    (n i : ℕ) (table : Handlers) → i < n → all_unimplemented n table i ≡ some unimplemented_f
unfolding all_unimplemented
all_unimplemented_lem zero i table h = absurd (omega arith)
all_unimplemented_lem (suc n) i table h = elim (Bool-cases (i == n)) [
  | inl here ↦ rw here refl
  | inr other ↦ rw other (all_unimplemented_lem n i table (ground arith))
]

assign_all-other :
    (l : List (ℕ × SyscallHandler)) (table : Handlers) (n : ℕ)
    → is_assigned n l ≡ false
    → assign_all l table n ≡ table n
unfolding assign_all is_assigned
assign_all-other [] table n h = refl
assign_all-other ((m, g) ∷ rest) table n h = elim (Bool-cases (n == m)) [
  | inl here ↦ let found : is_assigned n ((m, g) ∷ rest) ≡ true = rw here refl in cc
  | inr other ↦
      assign_all-other rest (assign table m g) n (rw other at h) ∙ assign-other table m n g other
]

assign_all-listed :
    (l : List (ℕ × SyscallHandler)) (table : Handlers) (n : ℕ) (h : SyscallHandler)
    → are_distinct l ≡ true
    → Memᴰ (n, h) l
    → assign_all l table n ≡ some h
unfolding assign_all are_distinct
assign_all-listed [] table n h d listed = absurd (Memᴰ.not-nil listed)
assign_all-listed ((m, g) ∷ rest) table n h d (Memᴰ.head e) =
    let same : n ≡ m = ap (λ (p : ℕ × SyscallHandler). p.0) e in
    let once : is_assigned n rest ≡ false = ground arith in
    assign_all-other rest (assign table m g) n once
    ∙ ap (λ k. assign table m g k) same
    ∙ assign-own table m g
    ∙ ap (λ (p : ℕ × SyscallHandler). some (p.1)) (sym e)
assign_all-listed ((m, g) ∷ rest) table n h d (Memᴰ.tail later) =
    assign_all-listed rest (assign table m g) n h (ground arith) later

unlisted-unassigned :
    (l : List (ℕ × SyscallHandler)) (n : ℕ)
    → ((h : SyscallHandler) → ¬ (Memᴰ (n, h) l))
    → is_assigned n l ≡ false
unfolding is_assigned
unlisted-unassigned [] n h = refl
unlisted-unassigned ((m, g) ∷ rest) n h = elim (Bool-cases (n == m)) [
  | inl here ↦ absurd (h g (Memᴰ.head (ap (λ k. (k, g)) ((==_iff n m).0 here))))
  | inr other ↦ rw other (unlisted-unassigned rest n (λ g' later. h g' (Memᴰ.tail later)))
]

assign_all-some :
    (l : List (ℕ × SyscallHandler)) (table : Handlers) (n : ℕ)
    → table n ≢ none
    → assign_all l table n ≢ none
unfolding assign_all
assign_all-some [] table n h = h
assign_all-some ((m, g) ∷ rest) table n h =
    assign_all-some rest (assign table m g) n
      (elim (Bool-cases (n == m)) [ inl here ↦ rw here (λ e. cc) | inr other ↦ rw other h ])

-- What an entry of the table is: the handler that is assigned to its number, or `unimplemented`.
pub record IsEntry (n : ℕ) (entry : Option SyscallHandler) : Type 0 where
  pub listed : (h : SyscallHandler) → Memᴰ (n, h) assignments → entry ≡ some h
  pub others : ((h : SyscallHandler) → ¬ (Memᴰ (n, h) assignments)) → entry ≡ some unimplemented_f
  pub not_null : entry ≢ none

-- Every entry of a table that is large enough is, after `configure_syscall_handlers`, the handler that
-- is assigned to its number, where one is, and `unimplemented` otherwise; none is NULL, whatever was
-- there before.
pub configure_syscall_handlers-IsEntry :
    (nr_syscalls n : ℕ) (table : Handlers)
    → n < nr_syscalls
    → IsEntry n (configure_syscall_handlers nr_syscalls table n)
unfolding configure_syscall_handlers
configure_syscall_handlers-IsEntry nr_syscalls n table inside = record {
  listed = λ h m.
      assign_all-listed assignments (all_unimplemented nr_syscalls table) n h
        (unfold are_distinct is_assigned in refl) m;
  others = λ h.
      assign_all-other assignments (all_unimplemented nr_syscalls table) n
        (unlisted-unassigned assignments n h)
      ∙ all_unimplemented_lem nr_syscalls n table inside;
  not_null =
      assign_all-some assignments (all_unimplemented nr_syscalls table) n
        (rw (all_unimplemented_lem nr_syscalls n table inside) (λ e. cc));
}
