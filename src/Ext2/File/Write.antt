-- ===== src/Ext2/File/Write.antt =====
-- `write_to_ino` on a device that does not fail.
use demandos.Prelude.{
  ℕ, zero, suc, ◌+◌, ◌-◌, ◌*◌, ◌%◌, ◌≤◌, ◌<◌, ◌≡◌, ◌≢◌, ◌∙◌, refl, ap, arith, inl, inr, Bytes, ltb,
  ◌==◌, dec_lt, Bool-cases, ltb→lt, ltb-ge, w64, true, ◌⊎◌,
}
use demandos.Blk.Device.{BlockDevice, byte_at, IsReliable}
use demandos.Blk.{min_of, min_of_le, min_of_pos, write_sync}
use demandos.Blk.Write.{write_sync_all}
use demandos.Ext2.Structs.{block_size}
use demandos.Ext2.File.{from_place, write_blocks}
use demandos.Ext2.File.Place.{
  IsMapped, place, disk_place-place, place_in_row, place_low, place_injective,
}

module _ (dev : BlockDevice) (good : IsReliable dev) (inode : Bytes) (blocks : ℕ)
    (mapped : IsMapped inode blocks) where
  open dev use {State, disk}

  -- Byte `q` of the disk is none of those of the file from `start` up to `len`.
  abbrev pub IsOutside : ℕ → ℕ → ℕ → ℕ → Type 0
  IsOutside offset len start q = (i : ℕ) → start ≤ i → i < len → q ≢ place inode (offset + i)

  pub record WritesFile (s : State) (buffer : Bytes) (offset len start : ℕ) (r : ℕ × State)
      : Type 0 where
    pub full : r.0 ≡ len
    pub put : (i : ℕ) → start ≤ i → i < len → byte_at dev r.1 (place inode (offset + i)) ≡ buffer i
    pub frame : (q : ℕ) → IsOutside offset len start q → byte_at dev r.1 q ≡ byte_at dev s q

  done-WritesFile :
      (s : State) (buffer : Bytes) (offset len start : ℕ)
      → len ≤ start
      → WritesFile s buffer offset len start (len, s)
  done-WritesFile s buffer offset len start h = record {
    full = refl;
    put = λ i a b. absurd (omega arith);
    frame = λ q out. refl;
  }

  -- A round, followed by what writes on behind its `n` bytes.
  round-WritesFile :
      (s s' : State) (buffer : Bytes) (offset len start n : ℕ) (r : ℕ × State)
      → offset + len ≤ blocks * block_size
      → (offset + start) % block_size + n ≤ block_size
      → start + n ≤ len
      → 0 < n
      → ((i : ℕ)
          → i < n
          → byte_at dev s' (place inode (offset + start) + i) ≡ from_place buffer start i)
      → ((q : ℕ)
          → (q < place inode (offset + start)) ⊎ (place inode (offset + start) + n ≤ q)
          → byte_at dev s' q ≡ byte_at dev s q)
      → WritesFile s' buffer offset len (start + n) r
      → WritesFile s buffer offset len start r
  round-WritesFile s s' buffer offset len start n r fits short within pos put frame rest =
      let first = place inode (offset + start) in
      let row : (i : ℕ)
          → start ≤ i
          → i < start + n
          → place inode (offset + i) ≡ first + (i - start) =
        λ i a b.
          ap (place inode) (omega arith)
          ∙ place_in_row inode blocks mapped (offset + start) (i - start) (omega arith) in
      record {
        full = rest.full;
        put = λ i a b. elim (dec_lt i (start + n)) [
          | no p ↦ rest.put i (omega arith) b
          | yes p ↦
              rest.frame (place inode (offset + i)) (λ j c d e.
                let same =
                  place_injective inode blocks mapped (offset + i) (offset + j) (omega arith)
                    (omega arith) e in
                omega arith)
              ∙ ap (byte_at dev s') (row i a p)
              ∙ put (i - start) (omega arith)
              ∙ ap buffer (omega arith)
        ];
        frame = λ q out.
            rest.frame q (λ i a b. out i (omega arith) b)
            ∙ frame q (elim (dec_lt q first) [
              | yes h ↦ inl h
              | no h ↦ elim (dec_lt q (first + n)) [
                | no k ↦ inr (omega arith)
                | yes k ↦ absurd (
                    out (start + (q - first)) (omega arith) (omega arith)
                      (omega (arith, row (start + (q - first)) (omega arith) (omega arith))))
              ]
            ]);
      }

  pub write_blocks-WritesFile :
      (rounds : ℕ) (s : State) (buffer : Bytes) (offset len start : ℕ)
      → offset + len ≤ blocks * block_size
      → start ≤ len
      → len - start ≤ rounds
      → WritesFile s buffer offset len start
          (write_blocks dev rounds s inode buffer offset len start)
  unfolding write_blocks
  write_blocks-WritesFile zero s buffer offset len start fits h k =
      done-WritesFile s buffer offset len start (omega arith)
  write_blocks-WritesFile (suc rounds) s buffer offset len start fits h k =
      elim (Bool-cases (ltb start len)) [
        | inr done ↦ rw done (done-WritesFile s buffer offset len start (ltb-ge start len done))
        | inl more ↦
            let lt = ltb→lt start len more in
            let pos = offset + start in
            let whole : w64 (offset + start) ≡ pos = omega (arith, mapped.direct) in
            let at = disk_place-place inode blocks mapped pos (omega arith) in
            let low = place_low inode blocks mapped pos (omega arith) in
            let n = min_of (block_size - pos % block_size) (len - start) in
            let bounds = min_of_le (block_size - pos % block_size) (len - start) in
            let positive =
              min_of_pos (block_size - pos % block_size) (len - start) (omega arith)
                (omega arith) in
            let one =
              write_sync_all dev s (from_place buffer start) (place inode pos) n good
                (omega arith) in
            let s' = (write_sync dev s (from_place buffer start) (place inode pos) n).1 in
            let hit : (n == n) ≡ true = ground arith in
            rw (more, whole, at, one.0, hit)
              (round-WritesFile s s' buffer offset len start n _ fits (omega arith) (omega arith)
                positive one.1 one.2
                (write_blocks-WritesFile rounds s' buffer offset len (start + n) fits (omega arith)
                  (omega arith)))
      ]
