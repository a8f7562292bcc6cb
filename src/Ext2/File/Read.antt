-- ===== src/Ext2/File/Read.antt =====
-- `read_from_ino` on a device that does not fail.
use demandos.Prelude.{
  ℕ, zero, suc, ◌+◌, ◌-◌, ◌*◌, ◌%◌, ◌≤◌, ◌<◌, ◌≡◌, ◌∙◌, refl, sym, ap, arith, inl, inr, Bytes, ltb,
  ◌==◌, dec_lt, Bool-cases, ltb→lt, ltb-ge, w64, true,
}
use demandos.Blk.Device.{BlockDevice, byte_at, IsReliable}
use demandos.Blk.{min_of, min_of_le, min_of_pos, read_sync}
use demandos.Blk.Read.{read_sync_all}
use demandos.Ext2.Structs.{block_size}
use demandos.Ext2.File.{from_place, back_at, read_blocks}
use demandos.Ext2.File.Place.{IsMapped, place, disk_place-place, place_in_row, place_low}

module _ (dev : BlockDevice) (good : IsReliable dev) (inode : Bytes) (blocks : ℕ)
    (mapped : IsMapped inode blocks) where
  open dev use {State, disk}

  -- All is read from `start` on, nothing else of the buffer is written, and the disk is kept.
  pub record ReadsFile (s : State) (buffer : Bytes) (offset len start : ℕ) (r : ℕ × Bytes × State)
      : Type 0 where
    pub full : r.0 ≡ len
    pub got : (i : ℕ) → start ≤ i → i < len → r.1 i ≡ byte_at dev s (place inode (offset + i))
    pub below : (i : ℕ) → i < start → r.1 i ≡ buffer i
    pub above : (i : ℕ) → len ≤ i → r.1 i ≡ buffer i
    pub keeps : (m j : ℕ) → disk r.2 m j ≡ disk s m j

  done-ReadsFile :
      (s : State) (buffer : Bytes) (offset len : ℕ) (start : ℕ)
      → len ≤ start
      → start ≤ len
      → ReadsFile s buffer offset len start (len, buffer, s)
  done-ReadsFile s buffer offset len start h k = record {
    full = refl;
    got = λ i a b. absurd (omega arith);
    below = λ i a. refl;
    above = λ i a. refl;
    keeps = λ m j. refl;
  }

  back_at_below : (b part : Bytes) (n i : ℕ) → i < n → back_at b n part i ≡ b i
  back_at_below b part n i h = ground arith

  back_at_above : (b part : Bytes) (n i : ℕ) → n ≤ i → back_at b n part i ≡ part (i - n)
  back_at_above b part n i h = ground arith

  -- A round, followed by what reads on behind its `n` bytes.
  round-ReadsFile :
      (s s' : State) (buffer part : Bytes) (offset len start n : ℕ) (r : ℕ × Bytes × State)
      → (offset + start) % block_size + n ≤ block_size
      → start + n ≤ len
      → 0 < n
      → ((i : ℕ) → i < n → part i ≡ byte_at dev s (place inode (offset + start) + i))
      → ((i : ℕ) → n ≤ i → part i ≡ from_place buffer start i)
      → ((m j : ℕ) → disk s' m j ≡ disk s m j)
      → ReadsFile s' (back_at buffer start part) offset len (start + n) r
      → ReadsFile s buffer offset len start r
  round-ReadsFile s s' buffer part offset len start n r short within pos red behind keeps rest =
      record {
        full = rest.full;
        got = λ i a b. elim (dec_lt i (start + n)) [
          | no p ↦ rest.got i (omega arith) b ∙ keeps _ _
          | yes p ↦
              rest.below i p
              ∙ back_at_above buffer part start i a
              ∙ red (i - start) (omega arith)
              ∙ ap (byte_at dev s) (
                  sym (place_in_row inode blocks mapped (offset + start) (i - start) (omega arith))
                  ∙ ap (place inode) (omega arith))
        ];
        below = λ i a. rest.below i (omega arith) ∙ back_at_below buffer part start i a;
        above = λ i a.
            rest.above i a
            ∙ back_at_above buffer part start i (omega arith)
            ∙ behind (i - start) (omega arith)
            ∙ ap buffer (omega arith);
        keeps = λ m j. rest.keeps m j ∙ keeps m j;
      }

  pub read_blocks-ReadsFile :
      (rounds : ℕ) (s : State) (buffer : Bytes) (offset len start : ℕ)
      → offset + len ≤ blocks * block_size
      → start ≤ len
      → len - start ≤ rounds
      → ReadsFile s buffer offset len start (read_blocks dev rounds s inode buffer offset len start)
  unfolding read_blocks
  read_blocks-ReadsFile zero s buffer offset len start fits h k =
      done-ReadsFile s buffer offset len start (omega arith) h
  read_blocks-ReadsFile (suc rounds) s buffer offset len start fits h k =
      elim (Bool-cases (ltb start len)) [
        | inr done ↦ rw done (done-ReadsFile s buffer offset len start (ltb-ge start len done) h)
        | inl more ↦
            let lt = ltb→lt start len more in
            let pos = offset + start in
            let whole : w64 (offset + start) ≡ pos = omega (arith, mapped.direct) in
            let at = disk_place-place inode blocks mapped pos (omega arith) in
            let low = place_low inode blocks mapped pos (omega arith) in
            let n = min_of (block_size - pos % block_size) (len - start) in
            let bounds = min_of_le (block_size - pos % block_size) (len - start) in
            let positive =
              min_of_pos (block_size - pos % block_size) (len - start) (omega arith)
                (omega arith) in
            let one =
              read_sync_all dev s (from_place buffer start) (place inode pos) n good
                (omega arith) in
            let (_, part, s') = read_sync dev s (from_place buffer start) (place inode pos) n in
            let hit : (n == n) ≡ true = ground arith in
            rw (more, whole, at, one.0, hit)
              (round-ReadsFile s s' buffer part offset len start n _ (omega arith) (omega arith)
                (omega (arith, min_of_pos (block_size - pos % block_size) (len - start))) one.1
                one.2 one.3
                (read_blocks-ReadsFile rounds s' (back_at buffer start part) offset len (start + n)
                  fits (omega arith) (omega arith)))
      ]
