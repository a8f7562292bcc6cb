-- ===== src/Ext2/Inode/Laws.antt =====
-- On a device that does not fail: where an inode lies, what is read of it, and what setting one of
-- its times changes on the disk.
use demandos.Prelude.{
  put32_inside, put32_outside, ℕ, ◌+◌, ◌-◌, ◌*◌, ◌/◌, ◌%◌, ◌^◌, ◌≤◌, ◌<◌, ◌≡◌, ◌⊎◌, ◌∙◌, inl, inr,
  refl, sym, ap, arith, Bytes, Bool, true, false, ◌==◌, dec_lt, w32, w64, le32, le32_cong, byte_of,
  put32,
}
use demandos.Blk.Device.{BlockDevice, byte_at, IsReliable}
use demandos.Blk.{read_sync}
use demandos.Blk.Read.{read_sync_all}
use demandos.Blk.Write.{write_sync_all}
use demandos.Ext2.Structs.{
  block_size, blockgroup_size, inode_size, first_offset_after_superblock, bg_inode_table,
  s_inodes_per_group, inode_table_loc, inode_loc_in_table,
}
use demandos.Ext2.Inode.{
  bg_from_bgno, ino_disk_offset, inode_to_ino, inode_from_ino, set_time_for_ino, set_atime_for_ino,
  set_ctime_for_ino, set_mtime_for_ino,
}

module _ (dev : BlockDevice) where
  open dev use {State, disk}

  -- The number of the inode table's first block, read from the descriptor of the inode's group.
  abbrev pub table_block : State → Bytes → ℕ → ℕ
  table_block s superblock ino = le32 (byte_at dev s) (
      first_offset_after_superblock
      + (ino - 1) / s_inodes_per_group superblock * blockgroup_size
      + 8)

  -- Where the ext2 format keeps inode `ino`.
  abbrev pub inode_place : State → Bytes → ℕ → ℕ
  inode_place s superblock ino =
      table_block s superblock ino * block_size
      + (ino - 1) % s_inodes_per_group superblock * inode_size

  -- The bytes of the inode on the disk.
  abbrev pub inode_on : State → Bytes → ℕ → Bytes
  inode_on s superblock ino i = byte_at dev s (inode_place s superblock ino + i)

  -- An inode number that the superblock's groups hold, with its table in the first 4 GiB.
  pub record IsInode (s : State) (superblock : Bytes) (ino : ℕ) : Type 0 where
    pub positive : 0 < ino
    pub word : ino < 2 ^ 32
    pub grouped : 0 < s_inodes_per_group superblock
    pub table_low : table_block s superblock ino < 2 ^ 22

div_le : (n d : ℕ) → n / d ≤ n
div_le n d = grind arith

mod_le : (n d : ℕ) → n % d ≤ n
mod_le n d = grind arith

inode_table_loc_lem :
    (ino per : ℕ) → 0 < ino → ino < 2 ^ 32 → 0 < per → inode_table_loc ino per ≡ (ino - 1) / per
unfolding inode_table_loc
inode_table_loc_lem ino per h k p =
    let e : w32 (ino + (2 ^ 32 - 1)) ≡ ino - 1 = omega arith in
    let ne : (per == 0) ≡ false = ground arith in rw (ne, e)

inode_loc_in_table_lem :
    (ino per : ℕ) → 0 < ino → ino < 2 ^ 32 → inode_loc_in_table ino per ≡ (ino - 1) % per
unfolding inode_loc_in_table
inode_loc_in_table_lem ino per h k =
    let e : w32 (ino + (2 ^ 32 - 1)) ≡ ino - 1 = omega arith in rw e

-- A place is one of the inode's, below it or above it.
inode_part :
    (place p : ℕ)
    → ((i : ℕ) × (i < inode_size) × (p ≡ place + i)) ⊎ ((p < place) ⊎ (place + inode_size ≤ p))
inode_part place p = elim (dec_lt p place) [
  | yes h ↦ inr (inl h)
  | no h ↦ elim (dec_lt p (place + inode_size)) [
    | yes k ↦ inl (p - place, omega arith, omega arith)
    | no k ↦ inr (inr (omega arith))
  ]
]

no_wrap :
    (table index : ℕ)
    → table < 2 ^ 22
    → index < 2 ^ 32
    → w64 (w32 (table * block_size) + index * inode_size) ≡ table * block_size + index * inode_size
no_wrap table index h k = omega arith

place_fits :
    (dev : BlockDevice) (s : dev.State) (superblock : Bytes) (ino : ℕ)
    → IsInode dev s superblock ino
    → inode_place dev s superblock ino + inode_size ≤ 2 ^ 64
place_fits dev s superblock ino v =
    omega (arith, v.table_low, v.word, mod_le (ino - 1) (s_inodes_per_group superblock))

module _ (dev : BlockDevice) (uninit : Bytes) (good : IsReliable dev) where
  open dev use {State, disk}

  pub ino_disk_offset_lem :
      (s : State) (superblock : Bytes) (ino : ℕ)
      → IsInode dev s superblock ino
      → let r = ino_disk_offset dev uninit s superblock ino in
        (r.0 ≡ inode_place dev s superblock ino) × ((m j : ℕ) → disk r.1 m j ≡ disk s m j)
  unfolding ino_disk_offset bg_from_bgno
  ino_disk_offset_lem s superblock ino v =
      let per = s_inodes_per_group superblock in
      let g = (ino - 1) / per in
      let start = first_offset_after_superblock + g * blockgroup_size in
      let small = div_le (ino - 1) per in
      let at : w64 start ≡ start = omega (arith, v.word) in
      let (_, red, _, keeps) =
        read_sync_all dev s uninit start blockgroup_size good (omega (arith, v.word)) in
      let bg = (read_sync dev s uninit start blockgroup_size).1 in
      let table : bg_inode_table bg ≡ table_block dev s superblock ino =
        le32_cong bg (byte_at dev s) 8 (start + 8) (red 8 (omega arith))
          (red 9 (omega arith) ∙ ap (byte_at dev s) (omega arith))
          (red 10 (omega arith) ∙ ap (byte_at dev s) (omega arith))
          (red 11 (omega arith) ∙ ap (byte_at dev s) (omega arith)) in
      rw
        (
          inode_table_loc_lem ino per v.positive v.word v.grouped,
          inode_loc_in_table_lem ino per v.positive v.word,
          at,
          table,
        )
        (
          no_wrap (table_block dev s superblock ino) ((ino - 1) % per) v.table_low
              (omega (arith, mod_le (ino - 1) per, v.word)),
          keeps,
        )

  -- On a device that does not fail, for an inode number that a group holds with its table in the
  -- first 4 GiB, `inode_from_ino` succeeds, its inode is that on the disk, and the disk is as it
  -- was.
  pub inode_from_ino_lem :
      (s : State) (superblock rinode : Bytes) (ino : ℕ)
      → IsInode dev s superblock ino
      → let r = inode_from_ino dev uninit s superblock rinode ino in
        (r.0 ≡ true)
        × ((i : ℕ) → i < inode_size → r.1 i ≡ inode_on dev s superblock ino i)
        × ((m j : ℕ) → disk r.2 m j ≡ disk s m j)
  unfolding inode_from_ino
  inode_from_ino_lem s superblock rinode ino v =
      let place = inode_place dev s superblock ino in
      let s' = (ino_disk_offset dev uninit s superblock ino).1 in
      let (at, keeps) = ino_disk_offset_lem s superblock ino v in
      let (all, red, _, kept) =
        read_sync_all dev s' rinode place inode_size good (place_fits dev s superblock ino v) in
      rw (at, all) (refl, λ i h. red i h ∙ keeps _ _, λ m j. kept m j ∙ keeps m j)

  -- On a device that does not fail, for an inode number that a group holds with its table in the
  -- first 4 GiB, `inode_to_ino` succeeds, writes the inode in its place and changes no other
  -- byte.
  pub inode_to_ino_lem :
      (s : State) (superblock rinode : Bytes) (ino : ℕ)
      → IsInode dev s superblock ino
      → let r = inode_to_ino dev uninit s superblock rinode ino in
        (r.0 ≡ true)
        × ((i : ℕ)
            → i < inode_size
            → byte_at dev r.1 (inode_place dev s superblock ino + i) ≡ rinode i)
        × ((p : ℕ)
            → (p < inode_place dev s superblock ino)
              ⊎ (inode_place dev s superblock ino + inode_size ≤ p)
            → byte_at dev r.1 p ≡ byte_at dev s p)
  unfolding inode_to_ino
  inode_to_ino_lem s superblock rinode ino v =
      let place = inode_place dev s superblock ino in
      let s' = (ino_disk_offset dev uninit s superblock ino).1 in
      let (at, keeps) = ino_disk_offset_lem s superblock ino v in
      let (all, put, frame) =
        write_sync_all dev s' rinode place inode_size good (place_fits dev s superblock ino v) in
      rw (at, all) (refl, put, λ p out. frame p out ∙ keeps _ _)

  -- What setting a time does: it succeeds, the four bytes of the field hold the time, and every other
  -- byte of the disk is as it was.
  abbrev pub SetsTime : State → Bytes → ℕ → ℕ → ℕ → Bool × State → Type 0
  SetsTime s superblock ino field time r =
      (r.0 ≡ true)
      × ((k : ℕ)
          → k < 4
          → byte_at dev r.1 (inode_place dev s superblock ino + (field + k)) ≡ byte_of time k)
      × ((p : ℕ)
          → (p < inode_place dev s superblock ino + field)
            ⊎ (inode_place dev s superblock ino + (field + 4) ≤ p)
          → byte_at dev r.1 p ≡ byte_at dev s p)

  set_time_for_ino-SetsTime :
      (field : ℕ) (s : State) (superblock : Bytes) (ino time : ℕ)
      → field + 4 ≤ inode_size
      → IsInode dev s superblock ino
      → SetsTime s superblock ino field time
          (set_time_for_ino dev uninit (λ b. put32 b field) s superblock ino time)
  unfolding set_time_for_ino
  set_time_for_ino-SetsTime field s superblock ino time inside v =
      let place = inode_place dev s superblock ino in
      let (ok, red, keeps) = inode_from_ino_lem s superblock uninit ino v in
      let inode = (inode_from_ino dev uninit s superblock uninit ino).1 in
      let s' = (inode_from_ino dev uninit s superblock uninit ino).2 in
      let same_table : table_block dev s' superblock ino ≡ table_block dev s superblock ino =
        le32_cong (byte_at dev s') (byte_at dev s) _ _ (keeps _ _) (keeps _ _) (keeps _ _)
          (keeps _ _) in
      let same_place : inode_place dev s' superblock ino ≡ place =
        ap (λ t. t * block_size + (ino - 1) % s_inodes_per_group superblock * inode_size)
          same_table in
      let v' : IsInode dev s' superblock ino = record {
        positive = v.positive;
        word = v.word;
        grouped = v.grouped;
        table_low = rw same_table v.table_low;
      } in
      let (done, put, frame) = inode_to_ino_lem s' superblock (put32 inode field time) ino v' in
      let t = (inode_to_ino dev uninit s' superblock (put32 inode field time) ino).1 in
      let put_at : (i : ℕ) → i < inode_size → byte_at dev t (place + i) ≡ put32 inode field time i =
        λ i h. ap (λ q. byte_at dev t (q + i)) (sym same_place) ∙ put i h in
      rw ok (
        done,
        λ k h. put_at (field + k) (omega arith) ∙ put32_inside inode field time k h,
        λ p out. elim (inode_part place p) [
          | inr (inl h) ↦ frame p (inl (rw same_place h)) ∙ keeps _ _
          | inr (inr h) ↦ frame p (inr (rw same_place h)) ∙ keeps _ _
          | inl (i, h, e) ↦
              ap (byte_at dev t) e
              ∙ put_at i h
              ∙ put32_outside inode field time i
                  (elim out [ inl a ↦ inl (omega arith) | inr a ↦ inr (omega arith) ])
              ∙ red i h
              ∙ ap (byte_at dev s) (sym e)
        ],
      )

  -- On a device that does not fail, for an inode number that a group holds with its table in the
  -- first 4 GiB, `set_atime_for_ino` succeeds, sets the access time of the inode on the disk and
  -- changes no other byte; so do `set_ctime_for_ino` with the change time and `set_mtime_for_ino`
  -- with the modification time.
  pub set_times-SetsTime :
      (s : State) (superblock : Bytes) (ino time : ℕ)
      → IsInode dev s superblock ino
      → SetsTime s superblock ino 8 time (set_atime_for_ino dev uninit s superblock ino time)
        × SetsTime s superblock ino 12 time (set_ctime_for_ino dev uninit s superblock ino time)
        × SetsTime s superblock ino 16 time (set_mtime_for_ino dev uninit s superblock ino time)
  unfolding set_atime_for_ino set_ctime_for_ino set_mtime_for_ino
  set_times-SetsTime s superblock ino time v = (
    set_time_for_ino-SetsTime 8 s superblock ino time (omega arith) v,
    set_time_for_ino-SetsTime 12 s superblock ino time (omega arith) v,
    set_time_for_ino-SetsTime 16 s superblock ino time (omega arith) v,
  )
