-- ===== src/Ext2/File/Place.antt =====
-- Where the bytes of a file lie on the disk.
use demandos.Prelude.{ℕ, ◌+◌, ◌*◌, ◌/◌, ◌%◌, ◌^◌, ◌≤◌, ◌<◌, ◌≡◌, arith, Bytes}
use demandos.Ext2.Structs.{block_size, i_block}
use demandos.Ext2.File.{disk_place}

-- The blocks of an inode that hold data directly; the source's bound of 13 takes in the one that
-- holds the numbers of more blocks.
abbrev pub direct_blocks : ℕ
direct_blocks = 12

-- The first `blocks` blocks of a file are different blocks of the first 4 GiB of the disk.
pub record IsMapped (inode : Bytes) (blocks : ℕ) : Type 0 where
  pub direct : blocks ≤ direct_blocks
  pub low : (i : ℕ) → i < blocks → i_block inode i < 2 ^ 22
  pub apart : (i j : ℕ) → i < blocks → j < blocks → i_block inode i ≡ i_block inode j → i ≡ j

-- The place of byte `p`, with no word wrapped.
abbrev pub place : Bytes → ℕ → ℕ
place inode p = i_block inode (p / block_size) * block_size + p % block_size

module _ (inode : Bytes) (blocks : ℕ) (m : IsMapped inode blocks) where
  pub disk_place-place : (p : ℕ) → p < blocks * block_size → disk_place inode p ≡ place inode p
  unfolding disk_place
  disk_place-place p h = omega (arith, m.low (p / block_size) (omega arith))

  -- Bytes of one block lie in a row.
  pub place_in_row :
      (p k : ℕ) → p % block_size + k < block_size → place inode (p + k) ≡ place inode p + k
  place_in_row p k h =
      let same_block : (p + k) / block_size ≡ p / block_size = omega arith in
      rw same_block (omega arith)

  pub place_low : (p : ℕ) → p < blocks * block_size → place inode p < 2 ^ 32
  place_low p h = omega (arith, m.low (p / block_size) (omega arith))

  -- Different bytes of the file lie at different places.
  pub place_injective :
      (p q : ℕ)
      → p < blocks * block_size
      → q < blocks * block_size
      → place inode p ≡ place inode q
      → p ≡ q
  place_injective p q hp hq e =
      let same_number : i_block inode (p / block_size) ≡ i_block inode (q / block_size) =
        omega arith in
      let same_block =
        m.apart (p / block_size) (q / block_size) (omega arith) (omega arith) same_number in
      omega arith
