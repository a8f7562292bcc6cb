-- ===== src/Io/View/Ring.antt =====
-- An open file whose sectors are read and written over the ring: from the system calls down to the device.
use demandos.Prelude.{ℕ, ◌*◌, ◌≡◌, Bytes, Option, some, List}
use demandos.Ext2.Structs.{block_size}
use demandos.Blk.Sectors.{Hardware, Places}
use demandos.Blk.Sectors.Serving.{IsServing, IsPlaced}
use demandos.Blk.Sectors.Refine.{virtio_disk}
use demandos.Blk.Sectors.Reliable.{Succeeds, virtio_disk-IsReliable}
use demandos.Io.{Io}
use demandos.Io.View.{OpenFile, FileCall, replies, AllFit}
use demandos.Io.View.Open.{system_calls, IsView}
use demandos.Io.View.Refine.{system_calls-replies}

-- On a ring that serves and a device of the standard that answers each read and each write with status
-- 0, wherever the kernel's stack puts the header, the status and the buffer of a request (apart from
-- each other, `IsPlaced`), and for a descriptor that is a view of its file: any run of read, write and
-- lseek that stays in the mapped blocks has a result, gives the program what an array of bytes with a
-- position gives, and ends on a ring that serves, with a view of the array that is left.
pub system_calls-virtio_disk :
    (hw : Hardware) (memory uninit : Bytes) (at : Places) (placed : IsPlaced at)
    (console : Io (virtio_disk hw memory at placed)
      → Bytes
      → ℕ
      → Option (ℕ × Io (virtio_disk hw memory at placed)))
    (calls : List (ℕ × FileCall)) (io : Io (virtio_disk hw memory at placed)) (fd blocks : ℕ)
    (v : OpenFile)
    → Succeeds hw
    → IsView io fd blocks v
    → AllFit (blocks * block_size) v calls
    → (io' : Io (virtio_disk hw memory at placed)) × (system_calls uninit console io fd calls
        ≡ some ((replies v calls).0, io'))
      × IsView io' fd blocks (replies v calls).1
      × IsServing io'.disk_state.0.ring
system_calls-virtio_disk hw memory uninit at placed console calls io fd blocks v ok h fits =
    let good = virtio_disk-IsReliable hw memory at placed ok in
    let (io', same, view) = system_calls-replies uninit good console calls io fd blocks v h fits in
    (io', same, view, io'.disk_state.1)
