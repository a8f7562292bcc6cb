-- ===== src/Io/View/Opening.antt =====
-- A file that `open_fd` of src/io.c opens is an `OpenFile`.
use demandos.Prelude.{
  ℕ, ◌+◌, ◌*◌, ◌<◌, ◌≡◌, ◌≢◌, ◌∙◌, refl, subst, arith, Bytes, true, some, List, ◌==◌, ltb,
}
use demandos.Blk.Device.{BlockDevice, byte_at}
use demandos.Ext2.Structs.{block_size, inode_size}
use demandos.Ext2.Inode.Laws.{inode_place}
use demandos.Ext2.File.Frame.{table_place, file_place, IsFile, IsApart, same-SameInode}
use demandos.Ext2.Keeps.{Same, AfterPath, ino_from_path-AfterPath}
use demandos.Ext2.Path.{ino_from_path}
use demandos.Io.{Io, max_fd, is_fd_open, is_fd_valid, next_fd}
use demandos.Io.Handlers.{open_fd}
use demandos.Io.Table.{next_fd-FindsFree}
use demandos.Io.Calls.{opened_state, close_fd-open_fd}
use demandos.Io.View.{OpenFile}
use demandos.Io.View.Open.{IsView, IsView-disk}

-- A file whose first blocks are mapped and lie apart from its inode and the way to it, the inode apart
-- from that way too.
pub record IsStored (dev : BlockDevice) (s : dev.State) (superblock : Bytes) (ino blocks : ℕ)
    : Type 0 where
  pub file : IsFile dev s superblock ino blocks
  pub apart : IsApart dev s superblock ino 0 (blocks * block_size)
  pub inode_apart :
      (k j : ℕ)
      → k < 4
      → j < inode_size
      → inode_place dev s superblock ino + j ≢ table_place superblock ino + k

-- The file's bytes on the disk, at the position that the descriptor has.
abbrev pub stored_file : {dev : BlockDevice} → Io dev → ℕ → ℕ → OpenFile
stored_file {dev} io fd ino = record {
  content = λ p. byte_at dev io.disk_state (file_place dev io.disk_state io.superblock ino p);
  pos = (io.fds fd).pos;
}

module _ {dev : BlockDevice} (io : Io dev) (fd ino blocks : ℕ) where
  opened_state-IsView :
      io.blk_initialized ≡ true
      → fd < max_fd
      → IsStored dev io.disk_state io.superblock ino blocks
      → IsView (opened_state io fd ino io.disk_state) fd blocks (stored_file io fd ino)
  unfolding is_fd_open is_fd_valid
  opened_state-IsView on below v =
      let hit : (fd == fd) ≡ true = ground arith in
      let valid : ltb fd max_fd ≡ true = ground arith in
      record {
        running = on;
        opened = rw (hit, valid) refl;
        reads = rw hit refl;
        writes = rw hit refl;
        seeks = rw hit refl;
        at = rw hit refl;
        file = rw hit v.file;
        apart = rw hit v.apart;
        inode_apart = rw hit v.inode_apart;
        holds = rw hit (λ p b. refl);
      }

  -- With the driver running and the disk mounted, a free descriptor, and a path that leads to a file
  -- whose first blocks are mapped and lie apart from its inode and the way to it: `open_fd` gives
  -- the lowest free descriptor to the file, and this is then the array of the file's bytes that
  -- were on the disk before, at the position that the descriptor had.
  pub open_fd-IsView :
      (uninit : Bytes) (path : List ℕ) (t : dev.State)
      → io.blk_initialized ≡ true
      → io.superblock_mounted ≡ true
      → next_fd io ≡ some fd
      → ino_from_path dev uninit io.disk_state io.superblock path ≡ some (true, some ino, t)
      → IsStored dev io.disk_state io.superblock ino blocks
      → (open_fd uninit io path ≡ some (fd, opened_state io fd ino t))
        × IsView (opened_state io fd ino t) fd blocks (stored_file io fd ino)
  open_fd-IsView uninit path t on mounted free walked v =
      let s = io.disk_state in
      let hit : (fd == fd) ≡ true = ground arith in
      let (opens, _, _, _) = close_fd-open_fd uninit io path fd ino t on mounted free walked in
      let (_, below, _, _) = (next_fd-FindsFree io).free fd free in
      let same : Same dev s t =
        subst (AfterPath dev uninit s) walked
          (ino_from_path-AfterPath dev uninit s io.superblock path) in
      let view = opened_state-IsView on below v in
      (
        opens,
        IsView-disk (opened_state io fd ino s) fd blocks (stored_file io fd ino) t
            (stored_file io fd ino).content view (same-SameInode dev s t io.superblock _ same)
            (λ p b. same _ _ ∙ view.holds p b),
      )
