-- ===== src/Ext2/Path.antt =====
-- Following a path from the root directory: `ino_from_path` and `inode_from_path`.
pub mod Laws
use demandos.Prelude.{
  ℕ, ◌≡◌, refl, Bytes, Bool, true, false, Option, none, some, List, [], ◌∷◌, ◌++◌, ◌==◌,
  if◌then◌else◌, ◌>>=◌, ap, ◌∙◌, arith, Bool-cases, Option-cases, inl, inr,
}
use mathlib.Core.List.{append_assoc}
use demandos.Blk.Device.{BlockDevice}
use demandos.Ext2.Inode.{inode_from_ino}
use demandos.Ext2.Dirent.{Found, inode_from_dir}

-- '/'
abbrev pub slash : ℕ
slash = 47

-- A component that is complete, unless it is empty.
abbrev pub emit : List ℕ → List (List ℕ) → List (List ℕ)
emit [] rest = rest
emit (c ∷ cs) rest = (c ∷ cs) ∷ rest

-- What the calls of strtok(path, "/") give one after the other, with the component read so far.
unfoldable pub tokens_from : List ℕ → List ℕ → List (List ℕ)
tokens_from part [] = emit part []
tokens_from part (c ∷ path) =
    let next = tokens_from [] path in
    let longer = tokens_from (part ++ c ∷ []) path in if c == slash then emit part next else longer

unfoldable pub tokens : List ℕ → List (List ℕ)
unfolding tokens_from
tokens path = tokens_from [] path

-- A number that was written through a pointer, over what was there.
abbrev pub written : Option ℕ → Option ℕ → Option ℕ
written none old = old
written (some n) old = some n

module _ (dev : BlockDevice) (uninit : Bytes) where
  open dev use {State}

  -- The loop over the components: each is looked up in the directory found last.
  unfoldable pub follow : State → Bytes → Bytes → Option ℕ → List (List ℕ) → Option (Found × State)
  follow s superblock inode ino [] = some (record { result = true; inode = inode; ino = ino }, s)
  follow s superblock inode ino (next ∷ path) = do
    (f, s') ← inode_from_dir dev uninit s superblock next inode inode
    let number = written f.ino ino
    let rest = follow s' superblock f.inode number path
    let lost = record f { ino = number }
    (if f.result then rest else some (lost, s'))

  -- The root directory is inode 2. The result, the number if one was written, and the state.
  unfoldable pub ino_from_path : State → Bytes → List ℕ → Option (Bool × Option ℕ × State)
  unfolding follow tokens
  ino_from_path s superblock path =
      let (root_ok, root, s') = inode_from_ino dev uninit s superblock uninit 2 in
      let walk = do
        (f, s'') ← follow s' superblock root none (tokens path)
        some (f.result, f.ino, s'')
      in if root_ok then walk else some (false, none, s')

  unfoldable pub inode_from_path : State → Bytes → List ℕ → Bytes → Option (Bool × Bytes × State)
  unfolding follow tokens
  inode_from_path s superblock path inode =
      let (root_ok, root, s') = inode_from_ino dev uninit s superblock inode 2 in
      let walk = do
        (f, s'') ← follow s' superblock root none (tokens path)
        some (f.result, f.inode, s'')
      in if root_ok then walk else some (false, root, s')
