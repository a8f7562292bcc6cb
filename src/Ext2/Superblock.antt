-- ===== src/Ext2/Superblock.antt =====
-- `read_superblock`: what is read into the superblock, and which file systems are accepted. The text
-- that it prints is the list of messages.
use demandos.Prelude.{
  ℕ, ◌+◌, ◌*◌, ◌%◌, ◌^◌, ◌<◌, ◌≡◌, ◌↔◌, arith, Bytes, Bool, true, false, not, List, [], ◌∷◌, ◌==◌,
  if◌then◌else◌, w32,
}
use demandos.Blk.Device.{BlockDevice, byte_at, IsReliable}
use demandos.Blk.{read_sync}
use demandos.Blk.Read.{read_sync_all}
use demandos.Ext2.Structs.{superblock_size, s_log_block_size, s_rev_level, s_inode_size}

-- The three things that it complains of.
pub data Complaint : Type 0 where
  unsupported_block_size unsupported_inode_size unsupported_revision : Complaint

-- 1024 << s_log_block_size, a shift of an int by the low five bits of the count, as on RISC-V; the
-- result is widened, and only its equality with 1024 matters.
abbrev pub actual_block_size : Bytes → ℕ
actual_block_size superblock = w32 (1024 * 2 ^ (s_log_block_size superblock % 32))

-- The tests that follow the read, on the two sizes and the revision. Another revision is complained of
-- and accepted.
abbrev pub answer : ℕ → ℕ → ℕ → Bool × List Complaint
answer blocks inodes revision =
    if not (blocks == 1024)
    then (false, unsupported_block_size ∷ [])
    else (if not (inodes == 256)
        then (false, unsupported_inode_size ∷ [])
        else (if not (revision == 1) then (true, unsupported_revision ∷ []) else (true, [])))

unfoldable pub accept : Bytes → Bool × List Complaint
accept superblock =
    answer (actual_block_size superblock) (s_inode_size superblock) (s_rev_level superblock)

answer_iff :
    (blocks inodes revision : ℕ)
    → ((answer blocks inodes revision).0 ≡ true) ↔ ((blocks ≡ 1024) × (inodes ≡ 256))
answer_iff blocks inodes revision = (λ h. ground arith, λ h. ground arith)

accept_iff :
    (b : Bytes) → ((accept b).0 ≡ true) ↔ ((actual_block_size b ≡ 1024) × (s_inode_size b ≡ 256))
unfolding accept
accept_iff b = answer_iff (actual_block_size b) (s_inode_size b) (s_rev_level b)

module _ (dev : BlockDevice) where
  open dev use {State, disk}

  unfoldable pub read_superblock : State → Bytes → (Bool × List Complaint) × Bytes × State
  unfolding accept
  read_superblock s superblock =
      let (result, superblock', s') = read_sync dev s superblock 1024 superblock_size in
      (if result == superblock_size then accept superblock' else (false, []), superblock', s')

  -- On a device that does not fail the superblock is the second kibibyte of the disk, and it is accepted
  -- exactly if its block size is 1024 and its inode size is 256, whatever its revision.
  pub read_superblock_lem :
      (s : State) (superblock : Bytes)
      → IsReliable dev
      → let r = read_superblock s superblock in
        ((i : ℕ) → i < superblock_size → r.1 i ≡ byte_at dev s (1024 + i))
        × ((r.0.0 ≡ true) ↔ ((actual_block_size (r.1) ≡ 1024) × (s_inode_size (r.1) ≡ 256)))
        × ((m j : ℕ) → disk r.2 m j ≡ disk s m j)
  unfolding read_superblock
  read_superblock_lem s superblock good =
      let (all, red, _, keeps) =
        read_sync_all dev s superblock 1024 superblock_size good (omega arith) in
      let b = (read_sync dev s superblock 1024 superblock_size).1 in
      rw all (red, accept_iff b, keeps)
