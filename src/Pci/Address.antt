-- ===== src/Pci/Address.antt =====
-- Which configuration space a function on the bus is configured by: the macros that take an offset
-- apart, put together again.
use demandos.Prelude.{
  ℕ, zero, suc, ◌*◌, ◌/◌, ◌%◌, ◌<◌, ◌≡◌, ◌↔◌, ◌∙◌, refl, arith, Bool, true, ◌&&◌, ◌==◌, ==_iff,
}
use demandos.Pci.{pci_off, pci_bus, pci_dev, pci_fun, function_step, max_pci_off}

-- A test that holds of all numbers below one.
all_below : ℕ → (ℕ → Bool) → Bool
all_below zero p = true
all_below (suc n) p = p n && all_below n p

all_below_lem : (n k : ℕ) (p : ℕ → Bool) → all_below n p ≡ true → k < n → p k ≡ true
unfolding all_below
all_below_lem zero k p h lt = absurd (omega arith)
all_below_lem (suc n) k p h lt = ground (arith, all_below_lem n k p)

-- The offset at which the function at an offset is configured.
unfoldable pub configured_at : ℕ → ℕ
unfolding pci_off pci_bus pci_dev pci_fun
configured_at off = pci_off (pci_bus off) (pci_dev off) (pci_fun off)

scanned : all_below 776 (λ k. configured_at (k * function_step) == k / 4 * 16384) ≡ true
unfolding all_below configured_at
scanned = refl

-- Of every offset that the scan comes to, the configuration space that the macros lead to is that of
-- the first of four functions: the right one just where the number of the function is 0 or 4.
pub configured_at_lem :
    (k : ℕ)
    → k < max_pci_off / function_step
    → let off = k * function_step in
      (configured_at off ≡ off / 16384 * 16384)
      × ((configured_at off ≡ off) ↔ (off / function_step % 4 ≡ 0))
configured_at_lem k h =
    let at : configured_at (k * function_step) ≡ k / 4 * 16384 =
      (==_iff (configured_at (k * function_step)) (k / 4 * 16384)).0
        (all_below_lem 776 k (λ k. configured_at (k * function_step) == k / 4 * 16384) scanned h) in
    (at ∙ omega arith, ((λ e. omega arith), (λ e. at ∙ omega arith)))
