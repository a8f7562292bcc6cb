-- ===== src/Io/View/Interleaved.antt =====
-- The calls on two open files in any order: each descriptor is its own array.
use demandos.Prelude.{
  ℕ, ◌*◌, ◌≡◌, refl, Bytes, Bool, true, false, Option, some, List, [], ◌∷◌, if◌then◌else◌, ◌>>=◌,
}
use demandos.Blk.Device.{BlockDevice, IsReliable}
use demandos.Ext2.Structs.{block_size}
use demandos.Io.{Io}
use demandos.Io.View.{OpenFile, FileCall, Reply, reply, Fits}
use demandos.Io.View.Open.{system_call}
use demandos.Io.View.Refine.{system_call-Serves}
use demandos.Io.View.Beside.{AreBeside, AreBeside-swap, KeepsOthers-AreBeside}

-- A call on the first of the two descriptors, or on the second, at a time.
abbrev pub Turn : Type 0
Turn = Bool × ℕ × FileCall

unfoldable pub turns :
    {dev : BlockDevice}
    → Bytes
    → (Io dev → Bytes → ℕ → Option (ℕ × Io dev))
    → Io dev
    → ℕ
    → ℕ
    → List Turn
    → Option (List Reply × Io dev)
unfolding system_call
turns uninit console io fd other [] = some ([], io)
turns uninit console io fd other ((mine, now, c) ∷ rest) =
    system_call uninit console now io (if mine then fd else other) c >>= λ r.
    turns uninit console r.1 fd other rest >>= λ q. some (r.0 ∷ q.0, q.1)

-- What two arrays give.
unfoldable pub both : OpenFile → OpenFile → List Turn → List Reply × (OpenFile × OpenFile)
unfolding reply
both v u [] = ([], (v, u))
both v u ((true, now, c) ∷ rest) =
    let (a, v') = reply v c in let (more, ends) = both v' u rest in (a ∷ more, ends)
both v u ((false, now, c) ∷ rest) =
    let (a, u') = reply u c in let (more, ends) = both v u' rest in (a ∷ more, ends)

unfoldable pub BothFit : ℕ → ℕ → OpenFile → OpenFile → List Turn → Type 0
unfolding reply
BothFit size other_size v u [] = Unit
BothFit size other_size v u ((true, now, c) ∷ rest) =
    Fits size v c × BothFit size other_size (reply v c).1 u rest
BothFit size other_size v u ((false, now, c) ∷ rest) =
    Fits other_size u c × BothFit size other_size v (reply u c).1 rest

module _ {dev : BlockDevice} (uninit : Bytes) (good : IsReliable dev)
    (console : Io dev → Bytes → ℕ → Option (ℕ × Io dev)) (fd blocks other other_blocks : ℕ) where
  -- On a device that does not fail, for two descriptors, each a view of its file (`IsView`), where the
  -- files lie beside each other (the bytes of each, its block numbers and the way to its inode are none of the other's bytes and none of
  -- the other's inode): any calls of read, write and lseek on the two, in any order, that stay in
  -- the mapped blocks, have results, and give the program what two arrays with their own positions give;
  -- so a call on one is never seen through the other.
  pub turns-both :
      (calls : List Turn) (io : Io dev) (v u : OpenFile)
      → AreBeside io fd blocks other other_blocks v u
      → BothFit (blocks * block_size) (other_blocks * block_size) v u calls
      → (io' : Io dev) × (turns uninit console io fd other calls ≡ some ((both v u calls).0, io'))
        × AreBeside io' fd blocks other other_blocks ((both v u calls).1.0) ((both v u calls).1.1)
  unfolding turns both BothFit
  turns-both [] io v u h fits = (io, refl, h)
  turns-both ((true, now, c) ∷ calls) io v u h (fit, fits) =
      let (io', same, view, keeps) =
        system_call-Serves uninit good console now io fd blocks v h.first c fit in
      let h' =
        KeepsOthers-AreBeside io io' fd blocks other other_blocks v (reply v c).1 u h view keeps in
      let (io'', rest, h'') = turns-both calls io' (reply v c).1 u h' fits in
      (io'', rw (same, rest) refl, h'')
  turns-both ((false, now, c) ∷ calls) io v u h (fit, fits) =
      let (io', same, view, keeps) =
        system_call-Serves uninit good console now io other other_blocks u h.second c fit in
      let h' = AreBeside-swap io' other other_blocks fd blocks (reply u c).1 v (
        KeepsOthers-AreBeside io io' other other_blocks fd blocks u (reply u c).1 v
          (AreBeside-swap io fd blocks other other_blocks v u h) view keeps) in
      let (io'', rest, h'') = turns-both calls io' v (reply u c).1 h' fits in
      (io'', rw (same, rest) refl, h'')
