-- ===== src/Ext2/File/Laws.antt =====
-- `read_from_ino` and `write_to_ino` against the bytes of the file on the disk, on a device that does
-- not fail.
use demandos.Prelude.{ℕ, ◌+◌, ◌*◌, ◌≤◌, ◌<◌, ◌≡◌, ◌≢◌, ◌∙◌, sym, ap, arith, Bytes}
use demandos.Blk.Device.{BlockDevice, byte_at, IsReliable}
use demandos.Ext2.Structs.{block_size}
use demandos.Ext2.Inode.{inode_from_ino}
use demandos.Ext2.Inode.Laws.{inode_on, inode_from_ino_lem}
use demandos.Ext2.File.{write_blocks, read_from_ino, write_to_ino}
use demandos.Ext2.File.Place.{place}
use demandos.Ext2.File.Frame.{
  place_cong, IsMapped-cong, file_place, IsFile, IsApart, SameInode, SameInode-file_place,
  SameInode-IsFile,
}
use demandos.Ext2.File.Read.{read_blocks-ReadsFile}
use demandos.Ext2.File.Write.{write_blocks-WritesFile}

module _ (dev : BlockDevice) (uninit : Bytes) (good : IsReliable dev) where
  open dev use {State, disk}

  -- On a device that does not fail, for a file whose inode can be found, `read_from_ino` reads
  -- all of the bytes that it is asked for, across blocks and sectors, where they lie in the
  -- mapped blocks; it writes nothing else into the buffer and nothing on the disk.
  pub read_from_ino_lem :
      (s : State) (superblock buffer : Bytes) (ino blocks offset len : ℕ)
      → IsFile dev s superblock ino blocks
      → offset + len ≤ blocks * block_size
      → let r = read_from_ino dev uninit s superblock ino buffer offset len in
        (r.0 ≡ len)
        × ((i : ℕ) → i < len → r.1 i ≡ byte_at dev s (file_place dev s superblock ino (offset + i)))
        × ((i : ℕ) → len ≤ i → r.1 i ≡ buffer i)
        × ((m j : ℕ) → disk r.2 m j ≡ disk s m j)
  unfolding read_from_ino
  read_from_ino_lem s superblock buffer ino blocks offset len v fits =
      let (ok, red, keeps) = inode_from_ino_lem dev uninit good s superblock uninit ino v.inode in
      let inode = (inode_from_ino dev uninit s superblock uninit ino).1 in
      let s' = (inode_from_ino dev uninit s superblock uninit ino).2 in
      let mapped =
        IsMapped-cong inode (inode_on dev s superblock ino) (λ i l. red i) blocks v.mapped in
      let all =
        read_blocks-ReadsFile dev good inode blocks mapped len s' buffer offset len 0 fits
          (omega arith) (omega arith) in
      rw ok (
        all.full,
        λ i h.
            all.got i (omega arith) h
            ∙ keeps _ _
            ∙ ap (byte_at dev s) (
                place_cong inode (inode_on dev s superblock ino) (λ i l. red i) (offset + i)
                  (omega (arith, v.mapped.direct))),
        all.above,
        λ m j. all.keeps m j ∙ keeps m j,
      )

  -- On a device that does not fail, for a file whose inode can be found, `write_to_ino` puts all
  -- of the bytes in their places in the file, across blocks and sectors, where they lie in the
  -- mapped blocks; no other byte of the disk changes.
  pub write_to_ino_lem :
      (s : State) (superblock buffer : Bytes) (ino blocks offset len : ℕ)
      → IsFile dev s superblock ino blocks
      → offset + len ≤ blocks * block_size
      → let r = write_to_ino dev uninit s superblock ino buffer offset len in
        (r.0 ≡ len)
        × ((i : ℕ)
            → i < len
            → byte_at dev r.1 (file_place dev s superblock ino (offset + i)) ≡ buffer i)
        × ((q : ℕ)
            → ((i : ℕ) → i < len → q ≢ file_place dev s superblock ino (offset + i))
            → byte_at dev r.1 q ≡ byte_at dev s q)
  unfolding write_to_ino
  write_to_ino_lem s superblock buffer ino blocks offset len v fits =
      let (ok, red, keeps) = inode_from_ino_lem dev uninit good s superblock uninit ino v.inode in
      let inode = (inode_from_ino dev uninit s superblock uninit ino).1 in
      let s' = (inode_from_ino dev uninit s superblock uninit ino).2 in
      let mapped =
        IsMapped-cong inode (inode_on dev s superblock ino) (λ i l. red i) blocks v.mapped in
      let all =
        write_blocks-WritesFile dev good inode blocks mapped len s' buffer offset len 0 fits
          (omega arith) (omega arith) in
      let t = (write_blocks dev len s' inode buffer offset len 0).1 in
      let here : (i : ℕ)
          → i < len
          → place inode (offset + i) ≡ file_place dev s superblock ino (offset + i) =
        λ i h.
          place_cong inode (inode_on dev s superblock ino) (λ i l. red i) (offset + i)
            (omega (arith, v.mapped.direct)) in
      rw ok (
        all.full,
        λ i h. ap (byte_at dev t) (sym (here i h)) ∙ all.put i (omega arith) h,
        λ q out. all.frame q (λ i a b e. out i b (e ∙ here i b)) ∙ keeps _ _,
      )

  -- A write to a range apart from the inode leaves the inode and the way to it.
  pub write_to_ino-SameInode :
      (s : State) (superblock input : Bytes) (ino blocks offset len : ℕ)
      → IsFile dev s superblock ino blocks
      → IsApart dev s superblock ino offset len
      → offset + len ≤ blocks * block_size
      → SameInode dev s (write_to_ino dev uninit s superblock ino input offset len).1 superblock ino
  write_to_ino-SameInode s superblock input ino blocks offset len v apart fits =
      let (_, _, frame) = write_to_ino_lem s superblock input ino blocks offset len v fits in
      record {
        number = λ k h. frame _ (λ i b. apart.from_descriptor i k b h);
        pointers = λ k l h. frame _ (λ i b. apart.from_inode i k b h);
      }

  -- On a device that does not fail, for a file whose inode can be found and whose first blocks
  -- are mapped, and for a range in these blocks that lies apart from the inode and from the
  -- descriptor that leads to it: `write_to_ino` writes all of the bytes, and `read_from_ino` of
  -- the same range, in the state that the write left, returns all of them as they were written.
  pub read_from_ino-write_to_ino :
      (s : State) (superblock input output : Bytes) (ino blocks offset len : ℕ)
      → IsFile dev s superblock ino blocks
      → IsApart dev s superblock ino offset len
      → offset + len ≤ blocks * block_size
      → let w = write_to_ino dev uninit s superblock ino input offset len in
        let r = read_from_ino dev uninit w.1 superblock ino output offset len in
        (w.0 ≡ len) × (r.0 ≡ len) × ((i : ℕ) → i < len → r.1 i ≡ input i)
  read_from_ino-write_to_ino s superblock input output ino blocks offset len v apart fits =
      let (full, put, _) = write_to_ino_lem s superblock input ino blocks offset len v fits in
      let t = (write_to_ino dev uninit s superblock ino input offset len).1 in
      let same = write_to_ino-SameInode s superblock input ino blocks offset len v apart fits in
      let (all, got, _, _) =
        read_from_ino_lem t superblock output ino blocks offset len
          (SameInode-IsFile dev s t superblock ino same blocks v) fits in
      (
        full,
        all,
        λ i h.
            got i h
            ∙ ap (byte_at dev t) (
                SameInode-file_place dev s t superblock ino same (offset + i)
                  (omega (arith, v.mapped.direct)))
            ∙ put i h,
      )
