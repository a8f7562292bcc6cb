-- ===== src/Io/View/Beside.antt =====
-- Two files that are open at once: a call on one leaves the view of the other, and both in their places.
use demandos.Prelude.{ℕ, ◌+◌, ◌*◌, ◌≤◌, ◌<◌, ◌≡◌, ◌≢◌, ◌∙◌, sym, ap, ap₂, subst, arith, Bytes, ◌&&◌}
use demandos.Blk.Device.{BlockDevice, byte_at}
use demandos.Ext2.Structs.{block_size, inode_size}
use demandos.Ext2.Inode.Laws.{inode_place}
use demandos.Ext2.File.Frame.{
  i_block_at, table_place, file_place, IsFile, IsApart, SameInode, SameInode-file_place,
  SameInode-inode_place,
}
use demandos.Io.{Io, IoDescriptor, is_fd_valid, is_fd_open}
use demandos.Io.View.{OpenFile}
use demandos.Io.View.Open.{IsView, IsView-disk, IsElsewhere, KeepsOthers}

module _ {dev : BlockDevice} where
  -- The bytes of another descriptor's file, its block numbers and the way to its inode lie elsewhere.
  pub record IsBeside (io : Io dev) (fd blocks other other_blocks : ℕ) : Type 0 where
    pub content :
        (p : ℕ)
        → p < other_blocks * block_size
        → IsElsewhere io fd blocks (file_place dev io.disk_state io.superblock (io.fds other).ino p)
    pub pointers :
        (k : ℕ)
        → i_block_at ≤ k
        → k < inode_size
        → IsElsewhere io fd blocks
            (inode_place dev io.disk_state io.superblock (io.fds other).ino + k)
    pub table :
        (k : ℕ)
        → k < 4
        → IsElsewhere io fd blocks (table_place io.superblock (io.fds other).ino + k)

  -- From one state to another the descriptor's file and its inode stay in their places.
  record IsPlaced (io io' : Io dev) (fd : ℕ) : Type 0 where
    pub place :
        (p : ℕ)
        → p < 12 * block_size
        → file_place dev io'.disk_state io'.superblock (io'.fds fd).ino p
          ≡ file_place dev io.disk_state io.superblock (io.fds fd).ino p
    pub inode :
        inode_place dev io'.disk_state io'.superblock (io'.fds fd).ino
        ≡ inode_place dev io.disk_state io.superblock (io.fds fd).ino
    pub way :
        table_place io'.superblock (io'.fds fd).ino ≡ table_place io.superblock (io.fds fd).ino

  same-IsPlaced :
      (io io' : Io dev) (fd : ℕ)
      → (io'.fds fd).ino ≡ (io.fds fd).ino
      → io'.superblock ≡ io.superblock
      → SameInode dev io.disk_state io'.disk_state io.superblock (io.fds fd).ino
      → IsPlaced io io' fd
  same-IsPlaced io io' fd ino superblock still =
      let s = io.disk_state in
      let t = io'.disk_state in
      record {
        place = λ p h.
            ap₂ (λ b n. file_place dev t b n p) superblock ino
            ∙ SameInode-file_place dev s t io.superblock (io.fds fd).ino still p h;
        inode =
            ap₂ (inode_place dev t) superblock ino
            ∙ SameInode-inode_place dev s t io.superblock (io.fds fd).ino still;
        way = ap₂ table_place superblock ino;
      }

  module _ (io io' : Io dev) (fd blocks : ℕ) (direct : blocks ≤ 12)
      (placed : IsPlaced io io' fd) where
    IsPlaced-IsElsewhere :
        (q q' : ℕ) → q' ≡ q → IsElsewhere io fd blocks q → IsElsewhere io' fd blocks q'
    IsPlaced-IsElsewhere q q' e out = (
      λ i h f. out.0 i h (sym e ∙ f ∙ placed.place i (omega arith)),
      λ k h f. out.1 k h (sym e ∙ f ∙ ap (λ n. n + k) placed.inode),
    )

    IsPlaced-IsBeside :
        (other other_blocks : ℕ)
        → other_blocks ≤ 12
        → IsPlaced io io' other
        → IsBeside io fd blocks other other_blocks
        → IsBeside io' fd blocks other other_blocks
    IsPlaced-IsBeside other other_blocks other_direct at beside = record {
      content = λ p h. IsPlaced-IsElsewhere _ _ (at.place p (omega arith)) (beside.content p h);
      pointers =
          λ k l h. IsPlaced-IsElsewhere _ _ (ap (λ n. n + k) at.inode) (beside.pointers k l h);
      table = λ k h. IsPlaced-IsElsewhere _ _ (ap (λ n. n + k) at.way) (beside.table k h);
    }

  -- A view rests on the descriptor, the superblock, the driver's flag and the disk.
  IsView-cong :
      (io io' : Io dev) (fd blocks : ℕ) (v : OpenFile)
      → io'.fds fd ≡ io.fds fd
      → io'.superblock ≡ io.superblock
      → io'.blk_initialized ≡ io.blk_initialized
      → IsView (record io { disk_state = io'.disk_state }) fd blocks v
      → IsView io' fd blocks v
  unfolding is_fd_open
  IsView-cong io io' fd blocks v d b r h =
      let t = io'.disk_state in
      let n : (io'.fds fd).ino ≡ (io.fds fd).ino = ap (λ (x : IoDescriptor). x.ino) d in
      let both : ◌≡◌ {A = Bytes × ℕ} (io'.superblock, (io'.fds fd).ino)
          (io.superblock, (io.fds fd).ino) =
        ap₂ (λ x y. (x, y)) b n in
      let e = sym both in
      record {
        running = r ∙ h.running;
        opened = ap (λ (x : IoDescriptor). is_fd_valid fd && x.is_open) d ∙ h.opened;
        reads = ap (λ (x : IoDescriptor). x.read_handler) d ∙ h.reads;
        writes = ap (λ (x : IoDescriptor). x.write_handler) d ∙ h.writes;
        seeks = ap (λ (x : IoDescriptor). x.seek_handler) d ∙ h.seeks;
        at = ap (λ (x : IoDescriptor). x.pos) d ∙ h.at;
        file = subst (λ (x : Bytes × ℕ). IsFile dev t x.0 x.1 blocks) e h.file;
        apart = subst (λ (x : Bytes × ℕ). IsApart dev t x.0 x.1 0 (blocks * block_size)) e h.apart;
        inode_apart = λ k j a c.
            subst (λ (x : Bytes × ℕ). inode_place dev t x.0 x.1 + j ≢ table_place x.0 x.1 + k) e
              (h.inode_apart k j a c);
        holds = λ p c.
            subst (λ (x : Bytes × ℕ). byte_at dev t (file_place dev t x.0 x.1 p) ≡ v.content p) e
              (h.holds p c);
      }

  -- Two descriptors of two files that lie beside each other.
  pub record AreBeside (io : Io dev) (fd blocks other other_blocks : ℕ) (v u : OpenFile)
      : Type 0 where
    pub differ : other ≢ fd
    pub first : IsView io fd blocks v
    pub second : IsView io other other_blocks u
    pub beside : IsBeside io fd blocks other other_blocks
    pub back : IsBeside io other other_blocks fd blocks

  pub AreBeside-swap :
      (io : Io dev) (fd blocks other other_blocks : ℕ) (v u : OpenFile)
      → AreBeside io fd blocks other other_blocks v u
      → AreBeside io other other_blocks fd blocks u v
  AreBeside-swap io fd blocks other other_blocks v u h = record {
    differ = λ e. h.differ (sym e);
    first = h.second;
    second = h.first;
    beside = h.back;
    back = h.beside;
  }

  -- After a call on one of the two, which leaves a view of its own, they still lie beside each other, and
  -- the other's view is as it was.
  pub KeepsOthers-AreBeside :
      (io io' : Io dev) (fd blocks other other_blocks : ℕ) (v v' u : OpenFile)
      → AreBeside io fd blocks other other_blocks v u
      → IsView io' fd blocks v'
      → KeepsOthers io fd blocks io'
      → AreBeside io' fd blocks other other_blocks v' u
  KeepsOthers-AreBeside io io' fd blocks other other_blocks v v' u h view keeps =
      let same = keeps.others other h.differ in
      let still : SameInode dev io.disk_state io'.disk_state io.superblock (io.fds other).ino =
        record {
          number = λ k a. keeps.elsewhere _ (h.beside.table k a);
          pointers = λ k a b. keeps.elsewhere _ (h.beside.pointers k a b);
        } in
      let one = same-IsPlaced io io' fd keeps.same_ino keeps.same_superblock keeps.still in
      let two =
        same-IsPlaced io io' other (ap (λ (x : IoDescriptor). x.ino) same) keeps.same_superblock
          still in
      let direct = h.first.file.mapped.direct in
      let other_direct = h.second.file.mapped.direct in
      record {
        differ = h.differ;
        first = view;
        second =
            IsView-cong io io' other other_blocks u same keeps.same_superblock keeps.same_running (
              IsView-disk io other other_blocks u io'.disk_state u.content h.second still
                (λ p b. keeps.elsewhere _ (h.beside.content p b) ∙ h.second.holds p b));
        beside =
            IsPlaced-IsBeside io io' fd blocks direct one other other_blocks other_direct two
              h.beside;
        back =
            IsPlaced-IsBeside io io' other other_blocks other_direct two fd blocks direct one
              h.back;
      }
