-- ===== src/Io/Written.antt =====
-- Writing a file through a descriptor, on a device that does not fail.
use demandos.Prelude.{
  ℕ, ◌+◌, ◌-◌, ◌*◌, ◌^◌, ◌≤◌, ◌<◌, ◌≡◌, ◌≢◌, ◌∙◌, ◌⊎◌, inl, inr, refl, sym, ap, arith, Bytes, true,
  dec_lt, w32, byte_of,
}
use demandos.Blk.Device.{BlockDevice, byte_at, IsReliable}
use demandos.Ext2.Structs.{block_size}
use demandos.Ext2.Inode.{set_mtime_for_ino}
use demandos.Ext2.Inode.Laws.{inode_place, set_times-SetsTime}
use demandos.Ext2.File.{write_to_ino}
use demandos.Ext2.File.Frame.{file_place, IsFile, IsApart, SameInode-inode_place, SameInode-IsInode}
use demandos.Ext2.File.Laws.{write_to_ino_lem, write_to_ino-SameInode}
use demandos.Io.{Io, is_fd_open}
use demandos.Io.Handlers.{disk_write}

-- A place that is none of the four bytes of a field is below them or above.
pub four_outside :
    (place field p : ℕ)
    → ((k : ℕ) → k < 4 → place + (field + k) ≢ p)
    → (p < place + field) ⊎ (place + (field + 4) ≤ p)
four_outside place field p out = elim (dec_lt p (place + field)) [
  | yes h ↦ inl h
  | no h ↦ elim (dec_lt p (place + (field + 4))) [
    | no k ↦ inr (omega arith)
    | yes k ↦ absurd (out (p - (place + field)) (omega arith) (omega arith))
  ]
]

module _ {dev : BlockDevice} (uninit : Bytes) (now : ℕ) (good : IsReliable dev) where
  -- What a write through a descriptor gives: all the bytes in their places in the file, from the
  -- descriptor's position on, with the modification time set and no other byte of the disk changed;
  -- of the state in memory nothing changes.
  pub record WritesOpen (io : Io dev) (fd size : ℕ) (buf : Bytes) (r : ℕ × Io dev) : Type 0 where
    pub full : r.0 ≡ size
    pub put :
        (i : ℕ)
        → i < size
        → byte_at dev r.1.disk_state
            (file_place dev io.disk_state io.superblock (io.fds fd).ino ((io.fds fd).pos + i))
          ≡ buf i
    pub stamped :
        (k : ℕ)
        → k < 4
        → byte_at dev r.1.disk_state
            (inode_place dev io.disk_state io.superblock (io.fds fd).ino + (16 + k))
          ≡ byte_of (w32 now) k
    pub kept :
        (p : ℕ)
        → ((i : ℕ)
            → i < size
            → p ≢ file_place dev io.disk_state io.superblock (io.fds fd).ino ((io.fds fd).pos + i))
        → ((k : ℕ)
            → k < 4
            → inode_place dev io.disk_state io.superblock (io.fds fd).ino + (16 + k) ≢ p)
        → byte_at dev r.1.disk_state p ≡ byte_at dev io.disk_state p
    pub memory : r.1 ≡ record io { disk_state = r.1.disk_state }

  -- On a device that does not fail, with the driver running, a write to an open descriptor returns
  -- the size, and puts all the bytes in their places in the file from the descriptor's position
  -- on, where these lie in mapped blocks apart from the inode and from the descriptor that leads
  -- to it, and where the size fits an int; it sets the modification time, changes no other byte of
  -- the disk, and leaves the rest of the state, with the position, as it was.
  pub disk_write-WritesOpen :
      (io : Io dev) (fd size blocks : ℕ) (buf : Bytes)
      → io.blk_initialized ≡ true
      → is_fd_open io fd ≡ true
      → size < 2 ^ 31
      → IsFile dev io.disk_state io.superblock (io.fds fd).ino blocks
      → IsApart dev io.disk_state io.superblock (io.fds fd).ino (io.fds fd).pos size
      → (io.fds fd).pos + size ≤ blocks * block_size
      → WritesOpen io fd size buf (disk_write uninit now io fd buf size)
  unfolding disk_write
  disk_write-WritesOpen io fd size blocks buf on opens int_size v apart fits =
      let ino = (io.fds fd).ino in
      let pos = (io.fds fd).pos in
      let s = io.disk_state in
      let (all, put, frame) =
        write_to_ino_lem dev uninit good s io.superblock buf ino blocks pos size v fits in
      let still =
        write_to_ino-SameInode dev uninit good s io.superblock buf ino blocks pos size v apart
          fits in
      let s' = (write_to_ino dev uninit s io.superblock ino buf pos size).1 in
      let place = SameInode-inode_place dev s s' io.superblock ino still in
      let (_, _, (done, stamp, keeps)) =
        set_times-SetsTime dev uninit good s' io.superblock ino (w32 now)
          (SameInode-IsInode dev s s' io.superblock ino still v.inode) in
      let t = (set_mtime_for_ino dev uninit s' io.superblock ino (w32 now)).1 in
      let beside : (p : ℕ)
          → ((k : ℕ) → k < 4 → inode_place dev s io.superblock ino + (16 + k) ≢ p)
          → byte_at dev t p ≡ byte_at dev s' p =
        λ p out. keeps p (rw place (four_outside (inode_place dev s io.superblock ino) 16 p out)) in
      rw (on, opens, done, all)
        (record {
          full = omega arith;
          put = λ i h.
              beside _ (λ k b e. apart.from_inode i (16 + k) h (omega arith) (omega (arith, e)))
              ∙ put i h;
          stamped = λ k h. ap (λ q. byte_at dev t (q + (16 + k))) (sym place) ∙ stamp k h;
          kept = λ p out times. beside p times ∙ frame p out;
          memory = refl;
        })
