-- ===== src/Ext2/Keeps.antt =====
-- What only reads: looking for inodes, walking directories and following paths leave the disk as it is,
-- also on a device that fails.
use demandos.Prelude.{
  ℕ, zero, suc, ◌+◌, ◌*◌, ◌≡◌, ◌∙◌, refl, inl, inr, Bytes, Bool, false, Option, none, some, List,
  [], ◌∷◌, ◌++◌, Bool-cases, ltb, ◌==◌, zeros, copy, ◌>>=◌, w32, w64, ◌-◌,
}
use demandos.Blk.Device.{BlockDevice, sector_size}
use demandos.Blk.{min_of, sector_from_pos, sector_offset_from_pos, read_loop, read_sync}
use demandos.Ext2.Structs.{block_size, i_block}
use demandos.Ext2.Inode.{bg_from_bgno, ino_disk_offset, inode_from_ino}
use demandos.Ext2.Dirent.{
  Search, found, missing, hangs, Found, search_block, search_blocks, inode_from_dir,
}
use demandos.Ext2.Dirent.Debug.{print_block, print_blocks, debug_dirent}
use demandos.Ext2.Path.{written, tokens, follow, ino_from_path, inode_from_path}

module _ (dev : BlockDevice) where
  open dev use {State, disk, read_sector, read_keeps}

  abbrev pub Same : State → State → Type 0
  Same s t = (m j : ℕ) → disk t m j ≡ disk s m j

  pub Same-trans : (s t u : State) → Same s t → Same t u → Same s u
  Same-trans s t u a b m j = b m j ∙ a m j

  -- A result, if there is one, comes with the disk as it was.
  abbrev pub After : {X : Type 0} → State → Option (X × State) → Type 0
  After s none = Unit
  After s (some r) = Same s r.1

  After-Same :
      {X : Type 0} (s t : State) (o : Option (X × State)) → Same s t → After t o → After s o
  After-Same s t none a b = tt
  After-Same s t (some r) a b = Same-trans s t r.1 a b

  pub After->>= :
      {X Y : Type 0} (s : State) (o : Option (X × State)) (f : X × State → Option (Y × State))
      → After s o
      → ((r : X × State) → Same s r.1 → After s (f r))
      → After s (o >>= f)
  After->>= s none f a k = tt
  After->>= s (some r) f a k = k r a

  read_loop-Same :
      (rounds : ℕ) (s : State) (output : Bytes) (offset size amt : ℕ)
      → Same s (read_loop dev rounds s output offset size amt).2
  unfolding read_loop
  read_loop-Same zero s output offset size amt = λ m j. refl
  read_loop-Same (suc rounds) s output offset size amt =
      let pos = w64 (offset + amt) in
      let n = min_of (size - amt) (sector_size - sector_offset_from_pos pos) in
      let r = read_sector s (sector_from_pos pos) zeros in
      let keeps = read_keeps s (sector_from_pos pos) zeros in
      elim (Bool-cases (ltb amt size)) [
        | inr done ↦ rw done (λ m j. refl)
        | inl more ↦ rw more (elim (Bool-cases (r.0 == 0)) [
          | inr bad ↦ rw bad keeps
          | inl good ↦ rw good (
              Same-trans s r.2 _ keeps (
                read_loop-Same rounds r.2 (copy output amt (r.1) (sector_offset_from_pos pos) n)
                  offset size (amt + n)))
        ])
      ]

  pub read_sync-Same :
      (s : State) (output : Bytes) (offset size : ℕ) → Same s (read_sync dev s output offset size).2
  unfolding read_sync
  read_sync-Same s output offset size = read_loop-Same size s output offset size 0

module _ (dev : BlockDevice) (uninit : Bytes) where
  open dev use {State}

  ino_disk_offset-Same :
      (s : State) (superblock : Bytes) (ino : ℕ)
      → Same dev s (ino_disk_offset dev uninit s superblock ino).1
  unfolding ino_disk_offset bg_from_bgno
  ino_disk_offset-Same s superblock ino = read_sync-Same dev s uninit _ _

  pub inode_from_ino-Same :
      (s : State) (superblock rinode : Bytes) (ino : ℕ)
      → Same dev s (inode_from_ino dev uninit s superblock rinode ino).2
  unfolding inode_from_ino
  inode_from_ino-Same s superblock rinode ino =
      Same-trans dev s (ino_disk_offset dev uninit s superblock ino).1 _
        (ino_disk_offset-Same s superblock ino) (read_sync-Same dev _ rinode _ _)

  search_blocks-Same :
      (blocks : ℕ) (s : State) (dir : Bytes) (path : List ℕ) (o : ℕ)
      → Same dev s (search_blocks dev uninit blocks s dir path o).1
  unfolding search_blocks
  search_blocks-Same zero s dir path o = λ m j. refl
  search_blocks-Same (suc blocks) s dir path o =
      let r = read_sync dev s uninit (w32 (i_block dir o * 1024)) block_size in
      let keeps = read_sync-Same dev s uninit (w32 (i_block dir o * 1024)) block_size in
      let rest = Same-trans dev s r.2 _ keeps (search_blocks-Same blocks r.2 dir path (o + 1)) in
      elim (Bool-cases (i_block dir o == 0)) [
        | inl last ↦ rw last (λ m j. refl)
        | inr more ↦
            rw more
              (elim (search_block block_size r.1 0 path)
                as (λ x.
                  Same dev s
                    (elim x as (λ _. Search × State) [
                      | missing ↦ search_blocks dev uninit blocks r.2 dir path (o + 1)
                      | found ino ↦ (found ino, r.2)
                      | hangs ↦ (hangs, r.2)
                    ]).1) [ missing ↦ rest | found ino ↦ keeps | hangs ↦ keeps ])
      ]

  inode_from_dir-After :
      (s : State) (superblock : Bytes) (path : List ℕ) (dir inode : Bytes)
      → After dev s (inode_from_dir dev uninit s superblock path dir inode)
  unfolding inode_from_dir
  inode_from_dir-After s superblock path dir inode =
      let r = search_blocks dev uninit 13 s dir path 0 in
      let keeps = search_blocks-Same 13 s dir path 0 in
      elim (r.0)
        as (λ x. After dev s (elim x as (λ _. Option (Found × State)) [
          | hangs ↦ none
          | missing ↦ some (record { result = false; inode = inode; ino = none }, r.1)
          | found ino ↦ some (
            record {
              result = (inode_from_ino dev uninit r.1 superblock inode ino).0;
              inode = (inode_from_ino dev uninit r.1 superblock inode ino).1;
              ino = some ino;
            },
            (inode_from_ino dev uninit r.1 superblock inode ino).2,
          )
        ])) [
          | hangs ↦ tt
          | missing ↦ keeps
          | found ino ↦ Same-trans dev s r.1 _ keeps (inode_from_ino-Same r.1 superblock inode ino)
        ]

  follow-After :
      (s : State) (superblock inode : Bytes) (ino : Option ℕ) (path : List (List ℕ))
      → After dev s (follow dev uninit s superblock inode ino path)
  unfolding follow
  follow-After s superblock inode ino [] = λ m j. refl
  follow-After s superblock inode ino (next ∷ path) =
      After->>= dev s (inode_from_dir dev uninit s superblock next inode inode) _
        (inode_from_dir-After s superblock next inode inode)
        (λ r keeps. elim (Bool-cases r.0.result) [
          | inr lost ↦ simp lost keeps
          | inl ok ↦ simp ok (
              After-Same dev s r.1 _ keeps
                (follow-After r.1 superblock r.0.inode (written r.0.ino ino) path))
        ])

  -- What `inode_from_path` and `ino_from_path` give stands before the state.
  abbrev pub AfterPath : {X : Type 0} → State → Option (Bool × X × State) → Type 0
  AfterPath s none = Unit
  AfterPath s (some r) = Same dev s r.2

  After-AfterPath :
      {X : Type 0} (f : Found → X) (s t : State) (o : Option (Found × State))
      → Same dev s t
      → After dev t o
      → AfterPath s (o >>= λ r. some (r.0.result, f r.0, r.1))
  After-AfterPath f s t none a b = tt
  After-AfterPath f s t (some r) a b = Same-trans dev s t r.1 a b

  pub inode_from_path-AfterPath :
      (s : State) (superblock : Bytes) (path : List ℕ) (inode : Bytes)
      → AfterPath s (inode_from_path dev uninit s superblock path inode)
  unfolding inode_from_path
  inode_from_path-AfterPath s superblock path inode =
      let r = inode_from_ino dev uninit s superblock inode 2 in
      let keeps = inode_from_ino-Same s superblock inode 2 in
      elim (Bool-cases r.0) [
        | inr lost ↦ simp lost keeps
        | inl ok ↦ simp ok (
            After-AfterPath (λ (f : Found). f.inode) s r.2 _ keeps
              (follow-After r.2 superblock r.1 none (tokens path)))
      ]

  pub ino_from_path-AfterPath :
      (s : State) (superblock : Bytes) (path : List ℕ)
      → AfterPath s (ino_from_path dev uninit s superblock path)
  unfolding ino_from_path
  ino_from_path-AfterPath s superblock path =
      let r = inode_from_ino dev uninit s superblock uninit 2 in
      let keeps = inode_from_ino-Same s superblock uninit 2 in
      elim (Bool-cases r.0) [
        | inr lost ↦ simp lost keeps
        | inl ok ↦ simp ok (
            After-AfterPath (λ (f : Found). f.ino) s r.2 _ keeps
              (follow-After r.2 superblock r.1 none (tokens path)))
      ]

  After-text :
      (s : State) (lines : Option (List ℕ)) (o : Option (List ℕ × State))
      → After dev s o
      → After dev s (lines >>= λ text. o >>= λ r. some (text ++ r.0, r.1))
  After-text s none o a = tt
  After-text s (some text) none a = tt
  After-text s (some text) (some r) a = a

  print_blocks-After :
      (debug : Bool) (blocks : ℕ) (s : State) (inode : Bytes) (o : ℕ)
      → After dev s (print_blocks dev uninit debug blocks s inode o)
  unfolding print_blocks
  print_blocks-After debug zero s inode o = λ m j. refl
  print_blocks-After debug (suc blocks) s inode o =
      let r = read_sync dev s uninit (w32 (i_block inode o * 1024)) block_size in
      let keeps = read_sync-Same dev s uninit (w32 (i_block inode o * 1024)) block_size in
      let rest = After-Same dev s r.2 _ keeps (print_blocks-After debug blocks r.2 inode (o + 1)) in
      elim (Bool-cases (i_block inode o == 0)) [
        | inl last ↦ rw last (λ m j. refl)
        | inr more ↦ rw more (After-text s (print_block debug block_size r.1 0) _ rest)
      ]

  pub debug_dirent-After :
      (debug : Bool) (s : State) (inode : Bytes)
      → After dev s (debug_dirent dev uninit debug s inode)
  unfolding debug_dirent
  debug_dirent-After debug s inode = print_blocks-After debug 13 s inode 0
