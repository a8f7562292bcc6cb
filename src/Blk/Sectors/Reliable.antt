-- ===== src/Blk/Sectors/Reliable.antt =====
-- A device of the standard that answers every request with status 0 makes a `BlockDevice` on which
-- nothing fails, so that what is proved of files on such devices holds of files behind the ring.
use demandos.Prelude.{ℕ, ◌%◌, ◌≡◌, arith, Bytes, true, false, le32, Apart}
use demandos.Blk.Device.{IsReliable}
use demandos.Vring.Chain.{data_size, status_size}
use demandos.Blk.Sectors.{Hardware, Places, read_op, write_op, request_chain, request_memory}
use demandos.Blk.Sectors.Serving.{IsPlaced, finds_type}
use demandos.Blk.Sectors.Refine.{virtio_disk}

-- Each request of the two types is answered with status 0.
pub record Succeeds (hw : Hardware) : Type 0 where
  pub read_ok :
      (d : hw.Disk) (mem : Bytes) (h a st : ℕ)
      → le32 mem h ≡ read_op
      → Apart a data_size st status_size
      → (hw.serve d mem (request_chain h a true st)).0 st % 256 ≡ 0
  pub write_ok :
      (d : hw.Disk) (mem : Bytes) (h a st : ℕ)
      → le32 mem h ≡ write_op
      → Apart a data_size st status_size
      → (hw.serve d mem (request_chain h a false st)).0 st % 256 ≡ 0

pub virtio_disk-IsReliable :
    (hw : Hardware) (memory : Bytes) (at : Places) (placed : IsPlaced at)
    → Succeeds hw
    → IsReliable (virtio_disk hw memory at placed)
virtio_disk-IsReliable hw memory at placed ok = record {
  reads = λ r n b.
      ok.read_ok r.0.stored (request_memory memory at read_op n b) at.header at.addr at.status
        (finds_type memory at read_op n b placed (omega arith)) placed.data_status;
  writes = λ r n b.
      ok.write_ok r.0.stored (request_memory memory at write_op n b) at.header at.addr at.status
        (finds_type memory at write_op n b placed (omega arith)) placed.data_status;
}
