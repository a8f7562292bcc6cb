-- ===== src/Io/View/Open.antt =====
-- The system calls on a descriptor (src/strap_handler.c), and when a descriptor is an `OpenFile`.
use demandos.Prelude.{
  ℕ, ◌+◌, ◌*◌, ◌^◌, ◌<◌, ◌≡◌, ◌≢◌, ◌∙◌, refl, sym, ap, arith, Bytes, true, Option, some, List, [],
  ◌∷◌, sign_extend, w32, ◌>>=◌,
}
use demandos.Blk.Device.{BlockDevice, byte_at}
use demandos.Ext2.Structs.{block_size, inode_size}
use demandos.Ext2.Inode.Laws.{inode_place}
use demandos.Ext2.File.Frame.{
  table_place, file_place, IsFile, IsApart, SameInode, SameInode-file_place, SameInode-IsFile,
  SameInode-IsApart, SameInode-inode_place,
}
use demandos.Io.{Io, is_fd_open, disk_write_handler, disk_read_handler, disk_seek_handler}
use demandos.Io.Handlers.{read_s, write_s, seek_s, seek_set, seek_cur}
use demandos.Io.View.{OpenFile, FileCall, file_read, file_write, file_set, file_move, Reply}

pub sign_extend_small : (n : ℕ) → n < 2 ^ 31 → sign_extend n ≡ n
sign_extend_small n h = ground arith

pub sign_extend-w32 : (n : ℕ) → n < 2 ^ 31 → sign_extend (w32 n) ≡ n
sign_extend-w32 n h = ground arith

-- `console` is what a write to the console does.
module _ {dev : BlockDevice} (uninit : Bytes)
    (console : Io dev → Bytes → ℕ → Option (ℕ × Io dev)) where
  unfoldable pub system_call : ℕ → Io dev → ℕ → FileCall → Option (Reply × Io dev)
  system_call now io fd (file_read size buf) =
      read_s uninit now io fd buf size >>= λ r. some ((r.0, r.1), r.2)
  system_call now io fd (file_write size buf) =
      write_s uninit now console io fd buf size >>= λ r. some ((r.0, buf), r.1)
  system_call now io fd (file_set offset) =
      seek_s io fd offset seek_set >>= λ r. some ((r.0, λ i. 0), r.1)
  system_call now io fd (file_move offset) =
      seek_s io fd offset seek_cur >>= λ r. some ((r.0, λ i. 0), r.1)

  unfoldable pub system_calls : Io dev → ℕ → List (ℕ × FileCall) → Option (List Reply × Io dev)
  unfolding system_call
  system_calls io fd [] = some ([], io)
  system_calls io fd ((now, c) ∷ calls) =
      system_call now io fd c >>= λ r. system_calls r.1 fd calls >>= λ q. some (r.0 ∷ q.0, q.1)

module _ {dev : BlockDevice} where
  -- A descriptor of a file whose first `blocks` blocks hold the content and lie apart from the inode
  -- and the way to it, at the position.
  pub record IsView (io : Io dev) (fd blocks : ℕ) (v : OpenFile) : Type 0 where
    pub running : io.blk_initialized ≡ true
    pub opened : is_fd_open io fd ≡ true
    pub reads : (io.fds fd).read_handler ≡ some disk_read_handler
    pub writes : (io.fds fd).write_handler ≡ some disk_write_handler
    pub seeks : (io.fds fd).seek_handler ≡ some disk_seek_handler
    pub at : (io.fds fd).pos ≡ v.pos
    pub file : IsFile dev io.disk_state io.superblock (io.fds fd).ino blocks
    pub apart : IsApart dev io.disk_state io.superblock (io.fds fd).ino 0 (blocks * block_size)
    pub inode_apart :
        (k j : ℕ)
        → k < 4
        → j < inode_size
        → inode_place dev io.disk_state io.superblock (io.fds fd).ino + j
          ≢ table_place io.superblock (io.fds fd).ino + k
    pub holds :
        (p : ℕ)
        → p < blocks * block_size
        → byte_at dev io.disk_state (file_place dev io.disk_state io.superblock (io.fds fd).ino p)
          ≡ v.content p

  -- A change of the disk that leaves the inode's pointers alone and puts a content in the file.
  pub IsView-disk :
      (io : Io dev) (fd blocks : ℕ) (v : OpenFile) (t : dev.State) (content : ℕ → ℕ)
      → IsView io fd blocks v
      → SameInode dev io.disk_state t io.superblock (io.fds fd).ino
      → ((p : ℕ)
          → p < blocks * block_size
          → byte_at dev t (file_place dev io.disk_state io.superblock (io.fds fd).ino p)
            ≡ content p)
      → IsView (record io { disk_state = t }) fd blocks (record v { content = content })
  unfolding is_fd_open
  IsView-disk io fd blocks v t content h same put =
      let ino = (io.fds fd).ino in
      let s = io.disk_state in
      let direct = h.file.mapped.direct in
      record {
        running = h.running;
        opened = h.opened;
        reads = h.reads;
        writes = h.writes;
        seeks = h.seeks;
        at = h.at;
        file = SameInode-IsFile dev s t io.superblock ino same blocks h.file;
        apart =
            SameInode-IsApart dev s t io.superblock ino same 0 (blocks * block_size)
              (omega (arith, direct)) h.apart;
        inode_apart = λ k j a b e.
            h.inode_apart k j a b
              (ap (λ q. q + j) (sym (SameInode-inode_place dev s t io.superblock ino same)) ∙ e);
        holds = λ p b.
            ap (byte_at dev t)
              (SameInode-file_place dev s t io.superblock ino same p (omega (arith, direct)))
            ∙ put p b;
      }

  -- A place that is none of the bytes of the descriptor's file, nor of its inode.
  abbrev pub IsElsewhere : Io dev → ℕ → ℕ → ℕ → Type 0
  IsElsewhere io fd blocks q =
      ((i : ℕ)
        → i < blocks * block_size
        → q ≢ file_place dev io.disk_state io.superblock (io.fds fd).ino i)
      × ((k : ℕ)
          → k < inode_size
          → q ≢ inode_place dev io.disk_state io.superblock (io.fds fd).ino + k)

  -- What a call on a descriptor leaves alone: the other descriptors, which file it is, and the disk
  -- elsewhere.
  pub record KeepsOthers (io : Io dev) (fd blocks : ℕ) (io' : Io dev) : Type 0 where
    pub others : (i : ℕ) → i ≢ fd → io'.fds i ≡ io.fds i
    pub same_ino : (io'.fds fd).ino ≡ (io.fds fd).ino
    pub same_superblock : io'.superblock ≡ io.superblock
    pub same_running : io'.blk_initialized ≡ io.blk_initialized
    pub still : SameInode dev io.disk_state io'.disk_state io.superblock (io.fds fd).ino
    pub elsewhere :
        (q : ℕ)
        → IsElsewhere io fd blocks q
        → byte_at dev io'.disk_state q ≡ byte_at dev io.disk_state q

  pub disk-KeepsOthers :
      (io : Io dev) (fd blocks : ℕ) (t : dev.State)
      → SameInode dev io.disk_state t io.superblock (io.fds fd).ino
      → ((q : ℕ) → IsElsewhere io fd blocks q → byte_at dev t q ≡ byte_at dev io.disk_state q)
      → KeepsOthers io fd blocks (record io { disk_state = t })
  disk-KeepsOthers io fd blocks t still elsewhere = record {
    others = λ i n. refl;
    same_ino = refl;
    same_superblock = refl;
    same_running = refl;
    still = still;
    elsewhere = elsewhere;
  }
