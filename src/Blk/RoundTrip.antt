-- ===== src/Blk/RoundTrip.antt =====
-- Reading back what was written.
use demandos.Prelude.{ℕ, ◌+◌, ◌^◌, ◌≤◌, ◌<◌, ◌≡◌, ◌∙◌, Bytes}
use demandos.Blk.Device.{BlockDevice, IsReliable}
use demandos.Blk.{read_sync, write_sync}
use demandos.Blk.Read.{read_sync_all}
use demandos.Blk.Write.{write_sync_all}

module _ (dev : BlockDevice) where
  open dev use {State}

  -- On a device that does not fail, a read of the range just written, at any offset from which it
  -- ends by 2 ^ 64, returns its size and the bytes written.
  pub read_sync-write_sync :
      (s : State) (input output : Bytes) (offset size : ℕ)
      → IsReliable dev
      → offset + size ≤ 2 ^ 64
      → let r = read_sync dev (write_sync dev s input offset size).1 output offset size in
        (r.0 ≡ size) × ((i : ℕ) → i < size → r.1 i ≡ input i)
  read_sync-write_sync s input output offset size good fits =
      let w = write_sync_all dev s input offset size good fits in
      let r =
        read_sync_all dev (write_sync dev s input offset size).1 output offset size good fits in
      (r.0, λ i h. r.1 i h ∙ w.1 i h)
