-- ===== src/Vring.antt =====
-- src/virtio.c and include/virtio.h: the descriptor table and the two rings that the driver shares
-- with a device. The memory behind the three pointers is a function of the index.
pub mod Layout
pub mod Added
pub mod Chain
pub mod Wait
pub mod Slots
pub mod Entropy
pub mod Random
pub mod DlRandom
use Prim.Native.Nat.{bit_and, bit_or}
use demandos.Prelude.{
  ℕ, zero, suc, ◌+◌, ◌-◌, ◌%◌, ◌^◌, Bool, Option, none, some, leb, ◌==◌, if◌then◌else◌, w16, w32,
  w64,
}

-- struct vring_desc_item
pub record Descriptor : Type 0 where
  pub addr : ℕ
  pub len : ℕ
  pub flags : ℕ
  pub next : ℕ

-- struct vring_bookeeping
pub record Bookeeping : Type 0 where
  pub used_last : ℕ
  pub avail_next : ℕ
  pub avail_avail : ℕ
  pub used_avail : ℕ
  pub descr_head : ℕ
  pub descr_next : ℕ

-- struct vring, with the tables that `desc`, `avail` and `used` point to.
pub record Vring : Type 0 where
  pub num : ℕ
  pub size : ℕ
  pub bookeeping : Bookeeping
  pub open bookeeping use *
  pub desc_addr : ℕ
  pub avail_addr : ℕ
  pub used_addr : ℕ
  pub desc : ℕ → Descriptor
  pub avail_flags : ℕ
  pub avail_idx : ℕ
  pub avail_ring : ℕ → ℕ

-- VRING_DESC_NEXT, VRING_DESC_NO_NEXT, VRING_DESCR_WRITABLE
abbrev pub desc_next : ℕ
desc_next = 1

abbrev pub desc_no_next : ℕ
desc_no_next = 2 ^ 32 - 1 - 1

abbrev pub descr_writable : ℕ
descr_writable = 2

unfoldable pub vring_use_descr : Vring → ℕ
vring_use_descr v = v.descr_next

unfoldable pub vring_unuse_descr : Vring → ℕ → Vring
vring_unuse_descr v goback = record v {
  bookeeping = record (v.bookeeping) { descr_next = w16 goback };
}

-- The slots of a ring that are used, less one, as a uint32_t.
abbrev pub ring_modulus : Vring → ℕ
ring_modulus v = w32 (v.num + (2 ^ 32 - 1))

-- The descriptor that is filled in. `%` by 0, which C leaves open, is the dividend, as on RISC-V.
unfoldable pub filled : ℕ → ℕ → ℕ → ℕ → Bool → Descriptor
filled buf size flags next ends_chain = record {
  addr = w64 buf;
  len = w32 size;
  flags = if ends_chain then w16 (bit_and flags desc_no_next) else w16 (bit_or flags desc_next);
  next = if ends_chain then 0 else w16 next;
}

-- `none` is the power-off at an index that the table does not have.
unfoldable pub vring_add_to_descr : Vring → ℕ → ℕ → ℕ → ℕ → Bool → Option (ℕ × Vring)
unfolding filled
vring_add_to_descr v buf size flags place ends_chain =
    let next = (v.descr_next + 1) % ring_modulus v in
    let item = filled buf size flags next ends_chain in
    let done = record v {
      desc = λ i. if i == place then item else v.desc i;
      bookeeping = record (v.bookeeping) { descr_next = w16 next };
    } in
    if leb v.num place then none else some (w16 next, done)

unfoldable pub vring_post_descr : Vring → ℕ → Vring
vring_post_descr v used_descr_idx =
    let slot = v.avail_next % ring_modulus v in
    let posted = w16 (v.avail_next + 1) in
    record v {
      avail_ring = λ i. if i == slot then w16 used_descr_idx else v.avail_ring i;
      avail_idx = posted;
      bookeeping = record (v.bookeeping) { avail_next = posted };
    }

-- The loop of `vring_wait_completion`: `reads n` is what the n-th read of used->idx sees. A `none`
-- says that the device has not moved within the reads allowed.
unfoldable pub wait_loop : ℕ → (ℕ → ℕ) → ℕ → ℕ → Option ℕ
wait_loop zero reads n used_last = none
wait_loop (suc rounds) reads n used_last =
    let rest = wait_loop rounds reads (n + 1) used_last in
    if reads n == used_last then rest else some (reads n)

unfoldable pub vring_wait_completion : ℕ → (ℕ → ℕ) → Vring → Option Vring
unfolding wait_loop
vring_wait_completion rounds reads v = elim (wait_loop rounds reads 0 v.used_last) [
  | none ↦ none
  | some id ↦ some (record v { bookeeping = record (v.bookeeping) { used_last = id } })
]
