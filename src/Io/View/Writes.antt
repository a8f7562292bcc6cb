-- ===== src/Io/View/Writes.antt =====
-- What a write to an open file of the disk leaves, against `OpenFile`.
use demandos.Prelude.{
  ℕ, ◌+◌, ◌-◌, ◌*◌, ◌≤◌, ◌<◌, ◌≡◌, ◌≢◌, ◌∙◌, inl, inr, sym, ap, subst, arith, Bytes, Option, some,
  ltb, leb, ◌&&◌, Bool-cases, sign_extend,
}
use demandos.Blk.Device.{BlockDevice, byte_at, IsReliable}
use demandos.Ext2.Structs.{block_size}
use demandos.Ext2.File.Place.{place_injective}
use demandos.Ext2.File.Frame.{file_place, IsApart, SameInode}
use demandos.Io.{Io}
use demandos.Io.Handlers.{disk_write, write_s}
use demandos.Io.Written.{WritesOpen, disk_write-WritesOpen}
use demandos.Io.View.{OpenFile, file_write, splice, Fits}
use demandos.Io.View.Open.{IsView, IsView-disk, KeepsOthers, disk-KeepsOthers, sign_extend_small}

module _ {dev : BlockDevice} (uninit : Bytes) (good : IsReliable dev) (now : ℕ) (io : Io dev)
    (fd blocks : ℕ) (v : OpenFile) (h : IsView io fd blocks v) where
  part-IsApart :
      (offset size : ℕ)
      → offset + size ≤ blocks * block_size
      → IsApart dev io.disk_state io.superblock (io.fds fd).ino offset size
  part-IsApart offset size fits = record {
    from_inode = λ i k a b e.
        h.apart.from_inode (offset + i) k (omega arith) b
          (e ∙ ap (file_place dev io.disk_state io.superblock (io.fds fd).ino) (omega arith));
    from_descriptor = λ i k a b e.
        h.apart.from_descriptor (offset + i) k (omega arith) b
          (e ∙ ap (file_place dev io.disk_state io.superblock (io.fds fd).ino) (omega arith));
  }

  -- After a write the file holds the bytes of the buffer from the position on.
  WritesOpen-content :
      (size : ℕ) (buf : Bytes) (r : ℕ × Io dev) (p : ℕ)
      → v.pos + size ≤ blocks * block_size
      → WritesOpen uninit now good io fd size buf r
      → p < blocks * block_size
      → byte_at dev r.1.disk_state (file_place dev io.disk_state io.superblock (io.fds fd).ino p)
        ≡ splice v.content v.pos size buf p
  WritesOpen-content size buf r p fits wrote b =
      let ino = (io.fds fd).ino in
      let at = file_place dev io.disk_state io.superblock ino in
      let same_pos : v.pos ≡ (io.fds fd).pos = sym h.at in
      elim (Bool-cases (leb v.pos p && ltb p (v.pos + size))) [
        | inl inside ↦ rw inside (
            let lower : v.pos ≤ p = ground arith in
            let upper : p < v.pos + size = ground arith in
            ap (λ q. byte_at dev r.1.disk_state (at q)) (omega arith)
            ∙ wrote.put (p - v.pos) (omega arith))
        | inr outside ↦ rw outside (
            let apart : (i : ℕ) → i < size → p ≢ v.pos + i = λ i c e. ground arith in
            wrote.kept (at p)
              (λ i c e. apart i c (
                place_injective _ blocks h.file.mapped p ((io.fds fd).pos + i) b (omega arith) e
                ∙ omega arith))
              (λ k c e. h.apart.from_inode p (16 + k) b (omega arith) (e ∙ ap at (omega arith)))
            ∙ h.holds p b)
      ]

  module _ (size : ℕ) (buf : Bytes) (r : ℕ × Io dev) (fits : v.pos + size ≤ blocks * block_size)
      (wrote : WritesOpen uninit now good io fd size buf r) where
    WritesOpen-SameInode : SameInode dev io.disk_state r.1.disk_state io.superblock (io.fds fd).ino
    WritesOpen-SameInode =
        let same_pos : v.pos ≡ (io.fds fd).pos = sym h.at in
        let apart = part-IsApart (io.fds fd).pos size (omega arith) in
        record {
          number = λ k a.
              wrote.kept _ (λ i b. apart.from_descriptor i k b a)
                (λ j b. h.inode_apart k (16 + j) a (omega arith));
          pointers = λ k a b. wrote.kept _ (λ i c. apart.from_inode i k c b) (λ j c. omega arith);
        }

    WritesOpen-IsView :
        IsView r.1 fd blocks (record v { content = splice v.content v.pos size buf })
    WritesOpen-IsView =
        subst (λ x. IsView x fd blocks (record v { content = splice v.content v.pos size buf }))
          (sym wrote.memory)
          (IsView-disk io fd blocks v r.1.disk_state (splice v.content v.pos size buf) h
            WritesOpen-SameInode (λ p b. WritesOpen-content size buf r p fits wrote b))

    WritesOpen-KeepsOthers : KeepsOthers io fd blocks r.1
    WritesOpen-KeepsOthers =
        let same_pos : v.pos ≡ (io.fds fd).pos = sym h.at in
        subst (KeepsOthers io fd blocks) (sym wrote.memory) (
          disk-KeepsOthers io fd blocks r.1.disk_state WritesOpen-SameInode (λ q out.
            wrote.kept q (λ i b. out.0 ((io.fds fd).pos + i) (omega arith))
              (λ k b e. out.1 (16 + k) (omega arith) (sym e))))

  write_s_open :
      (console : Io dev → Bytes → ℕ → Option (ℕ × Io dev)) (buf : Bytes) (size : ℕ)
      → let r = disk_write uninit now io fd buf size in
        write_s uninit now console io fd buf size ≡ some (sign_extend r.0, r.1)
  unfolding write_s
  write_s_open console buf size = ground (arith, h.opened, h.writes)

  -- A write through the system call, in one piece with what it leaves.
  pub write_s_lem :
      (console : Io dev → Bytes → ℕ → Option (ℕ × Io dev)) (size : ℕ) (buf : Bytes)
      → Fits (blocks * block_size) v (file_write size buf)
      → (io' : Io dev) × (write_s uninit now console io fd buf size ≡ some (size, io'))
        × IsView io' fd blocks (record v { content = splice v.content v.pos size buf })
        × KeepsOthers io fd blocks io'
  write_s_lem console size buf (int_size, fits) =
      let same_pos : v.pos ≡ (io.fds fd).pos = sym h.at in
      let r = disk_write uninit now io fd buf size in
      let wrote =
        disk_write-WritesOpen uninit now good io fd size blocks buf h.running h.opened int_size
          h.file (part-IsApart (io.fds fd).pos size (omega arith)) (omega arith) in
      rw (write_s_open console buf size) (
        r.1,
        ap (λ a. some (a, r.1)) (ap sign_extend wrote.full ∙ sign_extend_small size int_size),
        WritesOpen-IsView size buf r fits wrote,
        WritesOpen-KeepsOthers size buf r fits wrote,
      )
