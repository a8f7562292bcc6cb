-- ===== src/Blk/Sectors/Refine.antt =====
-- The sector operations over a ring and a device are a `BlockDevice`, the interface that the rest of
-- src/blk.c and src/ext2.c stands on.
use demandos.Prelude.{
  ℕ, ◌+◌, ◌%◌, ◌^◌, ◌<◌, ◌≡◌, ◌≢◌, ◌∙◌, inl, inr, refl, sym, ap, arith, Bytes, some, le64,
}
use demandos.Blk.Device.{BlockDevice, sector_size}
use demandos.Vring.{descr_writable}
use demandos.Blk.Sectors.{
  Hardware, Places, Sectors, read_op, write_op, request_memory, read_sector_sync, write_sector_sync,
}
use demandos.Blk.Sectors.Serving.{
  IsServing, IsPlaced, answer, sector_sync-IsServing, finds_type, finds_sector, finds_buffer,
}

module _ (hw : Hardware) (memory : Bytes) (at : Places) (placed : IsPlaced at) where
  open hw use {contents}

  -- The driver's states between two operations.
  abbrev pub Ready : Type 0
  Ready = (s : Sectors hw) × IsServing s.ring

  -- The state that an operation leaves.
  abbrev pub after_read : Ready → ℕ → Bytes → Ready
  after_read (s, v) n b =
      let r = sector_sync-IsServing hw memory at placed s v read_op descr_writable n b (inr refl) in
      (
        record {
          ring = r.0;
          stored = (answer hw memory at placed s v read_op descr_writable n b).1;
        },
        r.1,
      )

  abbrev pub after_write : Ready → ℕ → Bytes → Ready
  after_write (s, v) n b =
      let r = sector_sync-IsServing hw memory at placed s v write_op 0 n b (inl refl) in
      (record { ring = r.0; stored = (answer hw memory at placed s v write_op 0 n b).1 }, r.1)

  abbrev pub read_result : Ready → ℕ → Bytes → ℕ × Bytes × Ready
  read_result (s, v) n b =
      let mem = (answer hw memory at placed s v read_op descr_writable n b).0 in
      (mem at.status % 256, (λ (j : ℕ). mem (at.addr + j)), after_read (s, v) n b)

  abbrev pub write_result : Ready → ℕ → Bytes → ℕ × Ready
  write_result (s, v) n b =
      ((answer hw memory at placed s v write_op 0 n b).0 at.status % 256, after_write (s, v) n b)

  module _ (s : Sectors hw) (v : IsServing s.ring) (n : ℕ) (b : Bytes) where
    pub red :
        let r = answer hw memory at placed s v read_op descr_writable n b in
        let mem = request_memory memory at read_op n b in
        ((m j : ℕ) → contents r.1 m j ≡ contents s.stored m j)
        × (r.0 at.status % 256 ≡ 0
            → (j : ℕ) → j < sector_size
            → r.0 (at.addr + j) ≡ contents s.stored (le64 mem (at.header + 8)) j)
    red =
        hw.read_served s.stored (request_memory memory at read_op n b) at.header at.addr at.status
          (finds_type memory at read_op n b placed (omega arith)) placed.data_status

    pub wrote :
        let r = answer hw memory at placed s v write_op 0 n b in
        let mem = request_memory memory at write_op n b in
        ((m j : ℕ) → m ≢ le64 mem (at.header + 8) → contents r.1 m j ≡ contents s.stored m j)
        × (r.0 at.status % 256 ≡ 0
            → (j : ℕ) → j < sector_size
            → contents r.1 (le64 mem (at.header + 8)) j ≡ mem (at.addr + j))
    wrote =
        hw.write_served s.stored (request_memory memory at write_op n b) at.header at.addr at.status
          (finds_type memory at write_op n b placed (omega arith)) placed.data_status

    pub red_data :
        (j : ℕ)
        → n < 2 ^ 64
        → (read_result (s, v) n b).0 ≡ 0
        → j < sector_size
        → (read_result (s, v) n b).1 j ≡ contents s.stored n j
    red_data j low ok h =
        red.1 ok j h
        ∙ ap (λ m. contents s.stored m j) (finds_sector memory at read_op n b placed low)

    pub wrote_data :
        (j : ℕ)
        → n < 2 ^ 64
        → (write_result (s, v) n b).0 ≡ 0
        → j < sector_size
        → contents (write_result (s, v) n b).1.0.stored n j ≡ b j
    wrote_data j low ok h =
        ap (λ m. contents (after_write (s, v) n b).0.stored m j)
          (sym (finds_sector memory at write_op n b placed low))
        ∙ wrote.1 ok j h
        ∙ finds_buffer memory at write_op n b placed j h

    pub wrote_other :
        (m j : ℕ)
        → n < 2 ^ 64
        → m ≢ n
        → contents (write_result (s, v) n b).1.0.stored m j ≡ contents s.stored m j
    wrote_other m j low h =
        wrote.0 m j (λ e. h (e ∙ finds_sector memory at write_op n b placed low))

  abbrev pub virtio_disk : BlockDevice
  virtio_disk = record {
    State = Ready;
    disk = λ r. contents r.0.stored;
    read_sector = read_result;
    write_sector = write_result;
    read_keeps = λ r n b. (red r.0 r.1 n b).0;
    read_data = λ r n b. red_data r.0 r.1 n b;
    write_data = λ r n b. wrote_data r.0 r.1 n b;
    write_other = λ r n b. wrote_other r.0 r.1 n b;
  }

  -- From every state that serves, `virtio_blk_read_sector_sync` and `virtio_blk_write_sector_sync`, run
  -- over the ring and a device of the standard, end without powering off with the status, the buffer
  -- and the state of the block device that the rest is built on; a `BlockDevice` they are by its laws,
  -- and the state that they leave serves again.
  pub virtio_disk_lem :
      (s : Sectors hw) (v : IsServing s.ring) (n : ℕ) (b : Bytes)
      → let (red_status, red_bytes, after) = virtio_disk.read_sector (s, v) n b in
        let (wrote_status, after') = virtio_disk.write_sector (s, v) n b in
        (read_sector_sync hw memory at s n b ≡ some (red_status, red_bytes, after.0))
        × ((b' : Bytes) × (write_sector_sync hw memory at s n b
              ≡ some (wrote_status, b', after'.0)))
  unfolding read_sector_sync write_sector_sync
  virtio_disk_lem s v n b = (
    (sector_sync-IsServing hw memory at placed s v read_op descr_writable n b (inr refl)).2,
    (
      (λ (j : ℕ). (answer hw memory at placed s v write_op 0 n b).0 (at.addr + j)),
      (sector_sync-IsServing hw memory at placed s v write_op 0 n b (inl refl)).2,
    ),
  )
