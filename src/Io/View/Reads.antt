-- ===== src/Io/View/Reads.antt =====
-- What a read of an open file of the disk leaves, against `OpenFile`.
use demandos.Prelude.{
  ℕ, ◌+◌, ◌*◌, ◌≤◌, ◌<◌, ◌≡◌, ◌≢◌, ◌∙◌, inl, inr, refl, sym, ap, ap₂, subst, fun_ext, arith, Bytes,
  some, ltb, Bool-cases, ltb→lt, ltb-ge, sign_extend, ℕ_discrete, if◌then◌else◌,
}
use demandos.Blk.Device.{BlockDevice, byte_at, IsReliable}
use demandos.Ext2.Structs.{block_size}
use demandos.Ext2.Inode.Laws.{inode_place}
use demandos.Ext2.File.Frame.{file_place, SameInode, same-SameInode}
use demandos.Io.{Io}
use demandos.Io.Handlers.{disk_read, read_s}
use demandos.Io.Files.{ReadsOpen, disk_read-ReadsOpen}
use demandos.Io.Written.{four_outside}
use demandos.Io.View.{OpenFile, file_read, Fits}
use demandos.Io.View.Open.{IsView, IsView-disk, KeepsOthers, disk-KeepsOthers, sign_extend_small}

module _ {dev : BlockDevice} (uninit : Bytes) (good : IsReliable dev) (now : ℕ) (io : Io dev)
    (fd blocks : ℕ) (v : OpenFile) (h : IsView io fd blocks v) where
  -- A read changes the access time of the inode only.
  module _ (size : ℕ) (buf : Bytes) (r : ℕ × Bytes × Io dev)
      (red : ReadsOpen uninit now good io fd size buf r) where
    abbrev place : ℕ
    place = inode_place dev io.disk_state io.superblock (io.fds fd).ino

    ReadsOpen-SameInode : SameInode dev io.disk_state r.2.disk_state io.superblock (io.fds fd).ino
    ReadsOpen-SameInode = record {
      number = λ k a.
          red.kept _ (four_outside place 8 _ (λ j b. h.inode_apart k (8 + j) a (omega arith)));
      pointers = λ k a b. red.kept _ (inr (omega arith));
    }

    ReadsOpen-IsView : IsView r.2 fd blocks v
    ReadsOpen-IsView =
        let at = file_place dev io.disk_state io.superblock (io.fds fd).ino in
        let away : (p : ℕ) → p < blocks * block_size → (k : ℕ) → k < 4 → place + (8 + k) ≢ at p =
          λ p b k c e. h.apart.from_inode p (8 + k) b (omega arith) (e ∙ ap at (omega arith)) in
        subst (λ x. IsView x fd blocks v) (sym red.memory)
          (IsView-disk io fd blocks v r.2.disk_state v.content h ReadsOpen-SameInode
            (λ p b. red.kept _ (four_outside place 8 _ (away p b)) ∙ h.holds p b))

    ReadsOpen-KeepsOthers : KeepsOthers io fd blocks r.2
    ReadsOpen-KeepsOthers = subst (KeepsOthers io fd blocks) (sym red.memory) (
        disk-KeepsOthers io fd blocks r.2.disk_state ReadsOpen-SameInode (λ q out.
          red.kept q (four_outside place 8 q (λ k b e. out.1 (8 + k) (omega arith) (sym e)))))

  same-KeepsOthers : KeepsOthers io fd blocks io
  same-KeepsOthers =
      disk-KeepsOthers io fd blocks io.disk_state
        (same-SameInode dev io.disk_state io.disk_state io.superblock (io.fds fd).ino (λ m j. refl))
        (λ q out. refl)

  disk_read_nothing : (buf : Bytes) → disk_read uninit now io fd buf 0 ≡ (0, buf, io)
  unfolding disk_read
  disk_read_nothing buf = refl

  -- The bytes that a read puts into the buffer are those of the content.
  ReadsOpen-buffer :
      (size : ℕ) (buf : Bytes) (r : ℕ × Bytes × Io dev)
      → v.pos + size ≤ blocks * block_size
      → ReadsOpen uninit now good io fd size buf r
      → r.1 ≡ (λ i. if ltb i size then v.content (v.pos + i) else buf i)
  ReadsOpen-buffer size buf r fits red = fun_ext (λ i. elim (Bool-cases (ltb i size)) [
    | inr past ↦ rw past (red.above i (ltb-ge i size past))
    | inl inside ↦ rw inside (
        let lt = ltb→lt i size inside in
        red.got i lt
        ∙ ap
            (λ p.
              byte_at dev io.disk_state
                (file_place dev io.disk_state io.superblock (io.fds fd).ino (p + i)))
            h.at
        ∙ h.holds (v.pos + i) (omega arith))
  ])

  read_s_open :
      (buf : Bytes) (size : ℕ)
      → let r = disk_read uninit now io fd buf size in
        read_s uninit now io fd buf size ≡ some (sign_extend r.0, r.1, r.2)
  unfolding read_s
  read_s_open buf size = ground (arith, h.opened, h.reads)

  -- A read through the system call, in one piece with what it leaves.
  pub read_s_lem :
      (size : ℕ) (buf : Bytes)
      → Fits (blocks * block_size) v (file_read size buf)
      → (io' : Io dev) × (read_s uninit now io fd buf size
          ≡ some (size, (λ i. if ltb i size then v.content (v.pos + i) else buf i), io'))
        × IsView io' fd blocks v
        × KeepsOthers io fd blocks io'
  read_s_lem size buf (int_size, fits) = elim (ℕ_discrete size 0) [
    | yes e ↦
        rw (e, read_s_open buf 0, disk_read_nothing buf)
          (io, ap (λ b. some (0, b, io)) (fun_ext (λ i. ground arith)), h, same-KeepsOthers)
    | no n ↦
        let r = disk_read uninit now io fd buf size in
        let red =
          disk_read-ReadsOpen uninit now good io fd size blocks buf h.running h.opened (omega arith)
            int_size h.file (omega (arith, h.at)) in
        rw (read_s_open buf size) (
          r.2,
          ap₂ (λ a b. some (a, b, r.2)) (ap sign_extend red.full ∙ sign_extend_small size int_size)
              (ReadsOpen-buffer size buf r fits red),
          ReadsOpen-IsView size buf r red,
          ReadsOpen-KeepsOthers size buf r red,
        )
  ]
