-- ===== src/Ext2/File/Frame.antt =====
-- What decides where a file lies: the descriptor of its inode's group and the block numbers in the
-- inode. A change of the disk that leaves these alone leaves the file in its place.
use demandos.Prelude.{
  ℕ, ◌+◌, ◌-◌, ◌*◌, ◌/◌, ◌%◌, ◌≤◌, ◌<◌, ◌≡◌, ◌≢◌, ◌∙◌, sym, ap, arith, Bytes, le32_cong,
}
use demandos.Blk.Device.{BlockDevice, byte_at}
use demandos.Ext2.Structs.{
  block_size, blockgroup_size, inode_size, first_offset_after_superblock, i_block,
  s_inodes_per_group,
}
use demandos.Ext2.Inode.Laws.{table_block, inode_place, inode_on, IsInode}
use demandos.Ext2.File.Place.{IsMapped, place}

-- Where the array of block numbers begins in an inode, and where the number of the inode table's
-- first block lies on the disk.
abbrev pub i_block_at : ℕ
i_block_at = 40

abbrev pub table_place : Bytes → ℕ → ℕ
table_place superblock ino =
    first_offset_after_superblock + (ino - 1) / s_inodes_per_group superblock * blockgroup_size + 8

module _ (f g : Bytes) (same : (i : ℕ) → i_block_at ≤ i → i < inode_size → f i ≡ g i) where
  i_block_cong : (i : ℕ) → i < 12 → i_block f i ≡ i_block g i
  i_block_cong i h =
      le32_cong f g _ _ (same _ (omega arith) (omega arith)) (same _ (omega arith) (omega arith))
        (same _ (omega arith) (omega arith)) (same _ (omega arith) (omega arith))

  pub place_cong : (p : ℕ) → p < 12 * block_size → place f p ≡ place g p
  place_cong p h =
      ap (λ b. b * block_size + p % block_size) (i_block_cong (p / block_size) (omega arith))

  pub IsMapped-cong : (blocks : ℕ) → IsMapped g blocks → IsMapped f blocks
  IsMapped-cong blocks m = record {
    direct = m.direct;
    low = λ i h. rw (i_block_cong i (omega (arith, m.direct))) (m.low i h);
    apart = λ i j h k e. m.apart i j h k (
        sym (i_block_cong i (omega (arith, m.direct)))
        ∙ e
        ∙ i_block_cong j (omega (arith, m.direct)));
  }

module _ (dev : BlockDevice) where
  open dev use {State}

  -- The place on the disk of byte `p` of the file with inode number `ino`.
  abbrev pub file_place : State → Bytes → ℕ → ℕ → ℕ
  file_place s superblock ino = place (inode_on dev s superblock ino)

  -- A file whose inode can be found and whose first blocks are mapped.
  pub record IsFile (s : State) (superblock : Bytes) (ino blocks : ℕ) : Type 0 where
    pub inode : IsInode dev s superblock ino
    pub mapped : IsMapped (inode_on dev s superblock ino) blocks

  -- The bytes of the file lie apart from its inode and from the descriptor that leads to the inode.
  pub record IsApart (s : State) (superblock : Bytes) (ino offset len : ℕ) : Type 0 where
    pub from_inode :
        (i k : ℕ)
        → i < len
        → k < inode_size
        → inode_place dev s superblock ino + k ≢ file_place s superblock ino (offset + i)
    pub from_descriptor :
        (i k : ℕ)
        → i < len
        → k < 4
        → table_place superblock ino + k ≢ file_place s superblock ino (offset + i)

  -- From one state of the disk to another, the number of the inode table and the block numbers of the
  -- inode stay.
  pub record SameInode (s t : State) (superblock : Bytes) (ino : ℕ) : Type 0 where
    pub number :
        (k : ℕ)
        → k < 4
        → byte_at dev t (table_place superblock ino + k)
          ≡ byte_at dev s (table_place superblock ino + k)
    pub pointers :
        (k : ℕ)
        → i_block_at ≤ k
        → k < inode_size
        → byte_at dev t (inode_place dev s superblock ino + k)
          ≡ byte_at dev s (inode_place dev s superblock ino + k)

  module _ (s t : State) (superblock : Bytes) (ino : ℕ) (same : SameInode s t superblock ino) where
    SameInode-table_block : table_block dev t superblock ino ≡ table_block dev s superblock ino
    SameInode-table_block =
        le32_cong (byte_at dev t) (byte_at dev s) _ _
          (ap (byte_at dev t) (omega arith)
            ∙ same.number 0 (omega arith)
            ∙ ap (byte_at dev s) (omega arith))
          (same.number 1 (omega arith)) (same.number 2 (omega arith)) (same.number 3 (omega arith))

    pub SameInode-inode_place : inode_place dev t superblock ino ≡ inode_place dev s superblock ino
    SameInode-inode_place =
        ap (λ b. b * block_size + (ino - 1) % s_inodes_per_group superblock * inode_size)
          SameInode-table_block

    SameInode-inode_on :
        (k : ℕ)
        → i_block_at ≤ k
        → k < inode_size
        → inode_on dev t superblock ino k ≡ inode_on dev s superblock ino k
    SameInode-inode_on k l h =
        ap (λ q. byte_at dev t (q + k)) SameInode-inode_place ∙ same.pointers k l h

    pub SameInode-IsInode : IsInode dev s superblock ino → IsInode dev t superblock ino
    SameInode-IsInode v = record {
      positive = v.positive;
      word = v.word;
      grouped = v.grouped;
      table_low = rw SameInode-table_block v.table_low;
    }

    pub SameInode-file_place :
        (p : ℕ)
        → p < 12 * block_size
        → file_place t superblock ino p ≡ file_place s superblock ino p
    SameInode-file_place = place_cong _ _ SameInode-inode_on

    pub SameInode-IsFile :
        (blocks : ℕ) → IsFile s superblock ino blocks → IsFile t superblock ino blocks
    SameInode-IsFile blocks v = record {
      inode = SameInode-IsInode v.inode;
      mapped = IsMapped-cong _ _ SameInode-inode_on blocks v.mapped;
    }

    pub SameInode-IsApart :
        (offset len : ℕ)
        → offset + len ≤ 12 * block_size
        → IsApart s superblock ino offset len
        → IsApart t superblock ino offset len
    SameInode-IsApart offset len fits a = record {
      from_inode = λ i k h b e. a.from_inode i k h b (
          ap (λ q. q + k) (sym SameInode-inode_place)
          ∙ e
          ∙ SameInode-file_place (offset + i) (omega arith));
      from_descriptor = λ i k h b e.
          a.from_descriptor i k h b (e ∙ SameInode-file_place (offset + i) (omega arith));
    }

  -- A disk that is the same throughout.
  pub same-SameInode :
      (s t : State) (superblock : Bytes) (ino : ℕ)
      → ((m j : ℕ) → dev.disk t m j ≡ dev.disk s m j)
      → SameInode s t superblock ino
  same-SameInode s t superblock ino same = record {
    number = λ k h. same _ _;
    pointers = λ k l h. same _ _;
  }
