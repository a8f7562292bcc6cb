-- ===== src/Io/Files.antt =====
-- Reading a file through a descriptor, on a device that does not fail.
use demandos.Prelude.{
  ℕ, ◌+◌, ◌*◌, ◌^◌, ◌≤◌, ◌<◌, ◌≡◌, ◌∙◌, ◌⊎◌, refl, sym, ap, arith, Bytes, true, false, ◌==◌, w32,
  byte_of,
}
use demandos.Blk.Device.{BlockDevice, byte_at, IsReliable}
use demandos.Ext2.Structs.{block_size}
use demandos.Ext2.Inode.{set_atime_for_ino}
use demandos.Ext2.Inode.Laws.{inode_place, set_times-SetsTime}
use demandos.Ext2.File.{read_from_ino}
use demandos.Ext2.File.Frame.{
  file_place, IsFile, SameInode-inode_place, SameInode-IsInode, same-SameInode,
}
use demandos.Ext2.File.Laws.{read_from_ino_lem}
use demandos.Io.{Io, is_fd_open}
use demandos.Io.Handlers.{disk_read}

module _ {dev : BlockDevice} (uninit : Bytes) (now : ℕ) (good : IsReliable dev) where
  -- What a read through a descriptor gives: all the bytes of the file from the descriptor's position
  -- on, with nothing on the disk changed but the access time of the inode and nothing in memory.
  pub record ReadsOpen (io : Io dev) (fd size : ℕ) (buf : Bytes) (r : ℕ × Bytes × Io dev)
      : Type 0 where
    pub full : r.0 ≡ size
    pub got :
        (i : ℕ)
        → i < size
        → r.1 i
          ≡ byte_at dev io.disk_state
              (file_place dev io.disk_state io.superblock (io.fds fd).ino ((io.fds fd).pos + i))
    pub above : (i : ℕ) → size ≤ i → r.1 i ≡ buf i
    pub memory : r.2 ≡ record io { disk_state = r.2.disk_state }
    pub stamped :
        (k : ℕ)
        → k < 4
        → byte_at dev r.2.disk_state
            (inode_place dev io.disk_state io.superblock (io.fds fd).ino + (8 + k))
          ≡ byte_of (w32 now) k
    pub kept :
        (p : ℕ)
        → (p < inode_place dev io.disk_state io.superblock (io.fds fd).ino + 8)
          ⊎ (inode_place dev io.disk_state io.superblock (io.fds fd).ino + 12 ≤ p)
        → byte_at dev r.2.disk_state p ≡ byte_at dev io.disk_state p

  -- On a device that does not fail, with the driver running, a read of an open descriptor returns
  -- the size that was asked for, with the bytes of the file from the descriptor's position on,
  -- where these lie in mapped blocks and the size is a positive int; it sets the access time,
  -- changes no other byte of the disk, and leaves the rest of the state, with the position, as it
  -- was.
  pub disk_read-ReadsOpen :
      (io : Io dev) (fd size blocks : ℕ) (buf : Bytes)
      → io.blk_initialized ≡ true
      → is_fd_open io fd ≡ true
      → 0 < size
      → size < 2 ^ 31
      → IsFile dev io.disk_state io.superblock (io.fds fd).ino blocks
      → (io.fds fd).pos + size ≤ blocks * block_size
      → ReadsOpen io fd size buf (disk_read uninit now io fd buf size)
  unfolding disk_read
  disk_read-ReadsOpen io fd size blocks buf on opens some_bytes int_size v fits =
      let ino = (io.fds fd).ino in
      let s = io.disk_state in
      let (all, got, above, same) =
        read_from_ino_lem dev uninit good s io.superblock buf ino blocks (io.fds fd).pos size v
          fits in
      let s' = (read_from_ino dev uninit s io.superblock ino buf (io.fds fd).pos size).2 in
      let still = same-SameInode dev s s' io.superblock ino same in
      let place = SameInode-inode_place dev s s' io.superblock ino still in
      let ((done, put, frame), _, _) =
        set_times-SetsTime dev uninit good s' io.superblock ino (w32 now)
          (SameInode-IsInode dev s s' io.superblock ino still v.inode) in
      let positive : (size == 0) ≡ false = ground arith in
      let t = (set_atime_for_ino dev uninit s' io.superblock ino (w32 now)).1 in
      rw (positive, opens, on, done, all)
        (record {
          full = omega arith;
          got = got;
          above = above;
          memory = refl;
          stamped = λ k h. ap (λ q. byte_at dev t (q + (8 + k))) (sym place) ∙ put k h;
          kept = λ p out. frame p (rw place out) ∙ same _ _;
        })
