-- ===== src/Tests/Ring.antt =====
-- The file with inode 3 of the small disk behind descriptor 0, on a disk behind the ring.
use demandos.Prelude.{◌≡◌, refl, zeros, true, none, some}
use demandos.Blk.Device.{BlockDevice}
use demandos.Blk.Sectors.Serving.{IsServing}
use demandos.Blk.Sectors.Refine.{virtio_disk}
use demandos.Io.{Io, is_fd_open, is_fd_valid}
use demandos.Io.View.{replies}
use demandos.Io.View.Open.{system_calls, IsView}
use demandos.Io.View.Ring.{system_calls-virtio_disk}
use demandos.Tests.Devices.{small_superblock}
use demandos.Tests.Files.{small-IsFile}
use demandos.Tests.Descriptors.{reading}
use demandos.Tests.Open.{file_at_1000, file-IsView, write_and_read, write_and_read-AllFit}
use demandos.Tests.Sectors.{
  ram_hardware, ram_hardware-Succeeds, stack, stack-IsPlaced, sectors, served_ring,
  served_ring-IsServing,
}

abbrev ring_disk : BlockDevice
ring_disk = virtio_disk ram_hardware zeros stack stack-IsPlaced

abbrev on_ring : Io ring_disk
on_ring = record {
  fds = reading.fds;
  superblock = small_superblock;
  superblock_mounted = true;
  blk_initialized = true;
  disk_state = (sectors, served_ring-IsServing);
  console_initialized = true;
  console = served_ring;
}

on_ring-IsView : IsView on_ring 0 2 file_at_1000
unfolding is_fd_open is_fd_valid
on_ring-IsView = record {
  running = refl;
  opened = refl;
  reads = refl;
  writes = refl;
  seeks = refl;
  at = refl;
  file = record {
    inode = record {
      positive = small-IsFile.inode.positive;
      word = small-IsFile.inode.word;
      grouped = small-IsFile.inode.grouped;
      table_low = small-IsFile.inode.table_low;
    };
    mapped = record {
      direct = small-IsFile.mapped.direct;
      low = small-IsFile.mapped.low;
      apart = small-IsFile.mapped.apart;
    };
  };
  apart = record {
    from_inode = file-IsView.apart.from_inode;
    from_descriptor = file-IsView.apart.from_descriptor;
  };
  inode_apart = file-IsView.inode_apart;
  holds = λ p b. refl;
}

system_calls-virtio_disk_example :
    (io' : Io ring_disk) × (system_calls zeros (λ io buf size. none) on_ring 0 write_and_read
      ≡ some ((replies file_at_1000 write_and_read).0, io'))
    × IsView io' 0 2 (replies file_at_1000 write_and_read).1
    × IsServing io'.disk_state.0.ring
system_calls-virtio_disk_example =
    system_calls-virtio_disk ram_hardware zeros zeros stack stack-IsPlaced (λ io buf size. none)
      write_and_read on_ring 0 2 file_at_1000 ram_hardware-Succeeds on_ring-IsView
      write_and_read-AllFit
