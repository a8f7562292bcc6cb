-- ===== src/Ext2/SelfTest/Spares.antt =====
-- What the test does to the disk, and that it takes a failed read for a success.
use demandos.Prelude.{
  ℕ, zero, suc, ◌+◌, ◌-◌, ◌*◌, ◌%◌, ◌^◌, ◌≡◌, inl, inr, arith, Bytes, Bool, true, false, List, map,
  ◌++◌, refl, ◌≤◌, Bool-cases, Option-cases, subst, ltb, ◌==◌, zeros, copy, w64,
}
use demandos.Blk.Device.{BlockDevice, sector_size}
use demandos.Blk.{
  min_of, min_of_cases, sector_from_pos, sector_offset_from_pos, read_loop, read_sync,
}
use demandos.Blk.Read.{read_sync-Reads}
use demandos.Ext2.Structs.{s_log_block_size, first_offset_after_superblock}
use demandos.Ext2.Superblock.{read_superblock}
use demandos.Ext2.Inode.{inode_from_ino}
use demandos.Ext2.Dirent.Debug.{debug_dirent}
use demandos.Ext2.Path.{inode_from_path}
use demandos.Ext2.Keeps.{
  Same, Same-trans, After, AfterPath, read_sync-Same, inode_from_ino-Same, debug_dirent-After,
  inode_from_path-AfterPath,
}
use demandos.Ext2.SelfTest.{
  Said, Verdict, passes, refuses, powers_off, overruns, hangs, complained, check_superblock,
  check_group, buffer_size, Checked, wide_block_size, begins_with, blank_path, blank_text, eve_path,
  eve_text, test_path, check_file, check_path, check_eve, check_blank, check_files,
  test_ext2_implementation,
}

-- One round reads up to the end of a sector.
round_whole :
    (offset size amt : ℕ)
    → offset % sector_size ≡ 0
    → size % sector_size ≡ 0
    → amt % sector_size ≡ 0
    → (amt + min_of (size - amt) (sector_size - sector_offset_from_pos (w64 (offset + amt))))
        % sector_size
      ≡ 0
unfolding sector_offset_from_pos
round_whole offset size amt h k a =
    let border : w64 (offset + amt) % sector_size ≡ 0 = omega arith in
    elim (min_of_cases (size - amt) (sector_size - w64 (offset + amt) % sector_size)) [
      | inl rest ↦ rw rest (omega arith)
      | inr sector ↦ rw sector (omega arith)
    ]

-- From one sector's border to another, by whole sectors: the count is one of whole sectors, wherever the
-- read stops.
read_loop_whole :
    (dev : BlockDevice) (rounds : ℕ) (s : dev.State) (output : Bytes) (offset size amt : ℕ)
    → offset % sector_size ≡ 0
    → size % sector_size ≡ 0
    → amt % sector_size ≡ 0
    → (read_loop dev rounds s output offset size amt).0 % sector_size ≡ 0
unfolding read_loop
read_loop_whole dev zero s output offset size amt h k a = a
read_loop_whole dev (suc rounds) s output offset size amt h k a =
    let pos = w64 (offset + amt) in
    let n = min_of (size - amt) (sector_size - sector_offset_from_pos pos) in
    let r = dev.read_sector s (sector_from_pos pos) zeros in
    elim (Bool-cases (ltb amt size)) [
      | inr done ↦ rw done a
      | inl more ↦ rw more (elim (Bool-cases (r.0 == 0)) [
        | inr bad ↦ rw bad a
        | inl good ↦ rw good (
            read_loop_whole dev rounds r.2 (copy output amt (r.1) (sector_offset_from_pos pos) n)
              offset size (amt + n) h k (round_whole offset size amt h k a))
      ])
    ]

read_sync_whole :
    (dev : BlockDevice) (s : dev.State) (output : Bytes) (offset size : ℕ)
    → offset % sector_size ≡ 0
    → size % sector_size ≡ 0
    → (read_sync dev s output offset size).0 % sector_size ≡ 0
unfolding read_sync
read_sync_whole dev s output offset size h k =
    read_loop_whole dev size s output offset size 0 h k (omega arith)

wide_block_size_whole : (superblock : Bytes) → wide_block_size superblock % sector_size ≡ 0
wide_block_size_whole superblock =
    let whole : (1024 * 2 ^ (s_log_block_size superblock % 32)) % sector_size ≡ 0 = omega arith in
    ground (arith, whole)

module _ (dev : BlockDevice) (uninit : Bytes) (debug : Bool) where
  open dev use {State}

  -- The test does not come to its early return, and where it ends, other than by an overrun, the disk is
  -- as it was.
  abbrev pub Spares : State → Verdict State → Type 0
  Spares s (passes said t) = Same dev s t
  Spares s (refuses said t) = ⊥
  Spares s (powers_off said t) = Same dev s t
  Spares s (overruns said) = Unit
  Spares s hangs = Unit

  Spares-Same : (s t : State) (v : Verdict State) → Same dev s t → Spares t v → Spares s v
  Spares-Same s t (passes said u) a b = Same-trans dev s t u a b
  Spares-Same s t (refuses said u) a b = b
  Spares-Same s t (powers_off said u) a b = Same-trans dev s t u a b
  Spares-Same s t (overruns said) a b = tt
  Spares-Same s t hangs a b = tt

  check_file-After :
      (s : State) (superblock inode buffer : Bytes) (path : List ℕ)
      → After dev s (check_file dev uninit debug s superblock inode buffer path)
  unfolding check_file
  check_file-After s superblock inode buffer path =
      elim (Option-cases (inode_from_path dev uninit s superblock path inode)) [
        | inl none_found ↦ simp none_found tt
        | inr (r, is) ↦
            let keeps =
              subst (AfterPath dev uninit s) is
                (inode_from_path-AfterPath dev uninit s superblock path inode) in
            simp is (Same-trans dev s r.2 _ keeps (dev.read_keeps r.2 _ buffer))
      ]

  check_path-Spares :
      (s : State) (superblock : Bytes) (said : List Said)
      → Spares s (check_path dev uninit debug s superblock said)
  unfolding check_path
  check_path-Spares s superblock said =
      elim (Option-cases (inode_from_path dev uninit s superblock test_path uninit)) [
        | inl endless ↦ rw (endless, Spares, check_path) tt
        | inr ((ok, inode, s'), is) ↦
            let keeps =
              subst (AfterPath dev uninit s) is
                (inode_from_path-AfterPath dev uninit s superblock test_path uninit) in
            elim (Bool-cases ok) [
              | inl e ↦ rw (is, e, Spares, check_path) keeps
              | inr e ↦ rw (is, e, Spares, check_path) keeps
            ]
      ]

  check_eve-Spares :
      (s : State) (superblock : Bytes) (before : Checked) (said : List Said)
      → Spares s (check_eve dev uninit debug s superblock before said)
  unfolding check_eve
  check_eve-Spares s superblock before said =
      elim (Option-cases
        (check_file dev uninit debug s superblock before.inode before.buffer eve_path)) [
          | inl endless ↦ rw (endless, Spares, check_eve) tt
          | inr ((c, s'), is) ↦
              let keeps =
                subst (After dev s) is
                  (check_file-After s superblock before.inode before.buffer eve_path) in
              elim (Bool-cases (begins_with eve_text c.buffer 0)) [
                | inr e ↦ rw (is, e, Spares, check_eve) keeps
                | inl e ↦
                    rw (is, e, Spares, check_eve)
                      (Spares-Same s s' _ keeps (check_path-Spares s' superblock _))
              ]
        ]

  check_blank-Spares :
      (s : State) (superblock : Bytes) (before : Checked) (said : List Said)
      → Spares s (check_blank dev uninit debug s superblock before said)
  unfolding check_blank
  check_blank-Spares s superblock before said =
      elim (Option-cases
        (check_file dev uninit debug s superblock before.inode before.buffer blank_path)) [
          | inl endless ↦ rw (endless, Spares, check_blank) tt
          | inr ((c, s'), is) ↦
              let keeps =
                subst (After dev s) is
                  (check_file-After s superblock before.inode before.buffer blank_path) in
              elim (Bool-cases (begins_with blank_text c.buffer 0)) [
                | inr e ↦ rw (is, e, Spares, check_blank) keeps
                | inl e ↦
                    rw (is, e, Spares, check_blank)
                      (Spares-Same s s' _ keeps (check_eve-Spares s' superblock c _))
              ]
        ]

  check_files-Spares :
      (s : State) (superblock buffer : Bytes) (said : List Said)
      → Spares s (check_files dev uninit debug s superblock buffer said)
  unfolding check_files
  check_files-Spares s superblock buffer said =
      let r = inode_from_ino dev uninit s superblock uninit 2 in
      let found = inode_from_ino-Same dev uninit s superblock uninit 2 in
      elim (Option-cases (debug_dirent dev uninit debug r.2 r.1)) [
        | inl endless ↦ rw (endless, Spares, check_files) tt
        | inr ((text, s'), is) ↦
            let keeps = subst (After dev r.2) is (debug_dirent-After dev uninit debug r.2 r.1) in
            rw (is, Spares, check_files)
              (Spares-Same s s' _ (Same-trans dev s r.2 s' found keeps)
                (check_blank-Spares s' superblock _ said))
      ]

  pub test_ext2_implementation-Spares :
      (s : State) → Spares s (test_ext2_implementation dev uninit debug s)
  unfolding test_ext2_implementation read_superblock
  test_ext2_implementation-Spares s =
      let a = read_sync dev s uninit 1024 1024 in
      let size = wide_block_size a.1 in
      let b = read_sync dev a.2 zeros first_offset_after_superblock size in
      let whole =
        read_sync_whole dev a.2 zeros first_offset_after_superblock size (omega arith)
          (wide_block_size_whole a.1) in
      let passed : (b.0 % 256 == 0) ≡ true = ground arith in
      elim (Bool-cases (ltb buffer_size b.0)) [
        | inl wide ↦ rw wide tt
        | inr narrow ↦
            rw (narrow, passed)
              (Spares-Same s b.2 _
                (Same-trans dev s a.2 b.2 (read_sync-Same dev s uninit 1024 1024)
                  (read_sync-Same dev a.2 zeros first_offset_after_superblock size))
                (check_files-Spares b.2 a.1 b.1 _))
      ]

  -- On any device, also one that fails, and from any state, if the superblock that was read, or the
  -- bytes that lay there where it was not, has a log block size of 0 (modulo 32): the read of the block
  -- group stays within its array; whether it succeeds or not, the test goes on to check the files as
  -- after a success and does not come to its early return, since a uint8_t holds 0 of every count of
  -- whole sectors; the group that it checks is zero from the first byte on that was not read; and up
  -- to there the disk is as it was.
  pub test_ext2_implementation-check_files :
      (s : State)
      → let ((_, complaints), superblock, s') = read_superblock dev s uninit in
        let (red, group, s'') =
          read_sync dev s' zeros first_offset_after_superblock (wide_block_size superblock) in
        let said = map complained complaints ++ check_superblock superblock in
        s_log_block_size superblock % 32 ≡ 0
        → (red ≤ buffer_size)
          × (test_ext2_implementation dev uninit debug s
              ≡ check_files dev uninit debug s'' superblock group (said ++ check_group group))
          × ((i : ℕ) → red ≤ i → group i ≡ 0)
          × Same dev s s''
  unfolding test_ext2_implementation read_superblock
  test_ext2_implementation-check_files s small =
      let a = read_sync dev s uninit 1024 1024 in
      let size : wide_block_size a.1 ≡ 1024 = rw small refl in
      let b = read_sync dev a.2 zeros first_offset_after_superblock (wide_block_size a.1) in
      let whole =
        read_sync_whole dev a.2 zeros first_offset_after_superblock (wide_block_size a.1)
          (omega arith) (wide_block_size_whole a.1) in
      let passed : (b.0 % 256 == 0) ≡ true = ground arith in
      let (reads, stops) =
        read_sync-Reads dev a.2 zeros first_offset_after_superblock (wide_block_size a.1)
          (omega (arith, size)) in
      let bound : b.0 ≤ buffer_size = elim stops [
        | inl all ↦ omega (arith, size, all)
        | inr (less, _) ↦ omega (arith, size, less)
      ] in
      let narrow : ltb buffer_size b.0 ≡ false = ground arith in
      (
        bound,
        rw (narrow, passed) refl,
        λ i h. reads.frame_above i h,
        Same-trans dev s a.2 b.2 (read_sync-Same dev s uninit 1024 1024)
            (read_sync-Same dev a.2 zeros first_offset_after_superblock (wide_block_size a.1)),
      )
