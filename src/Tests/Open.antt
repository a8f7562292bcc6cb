-- ===== src/Tests/Open.antt =====
-- The file with inode 3 of the small disk behind descriptor 0, as an array of bytes at 1000.
use demandos.Prelude.{
  ℕ, ◌+◌, ◌*◌, ◌≤◌, ◌≡◌, arith, refl, zeros, Bytes, Option, none, some, List, [], ◌∷◌,
}
use demandos.Blk.Device.{byte_at}
use demandos.Ext2.File.Frame.{IsApart, file_place}
use demandos.Io.{Io}
use demandos.Io.Handlers.{disk_write}
use demandos.Io.Written.{WritesOpen, disk_write-WritesOpen}
use demandos.Io.View.{
  OpenFile, FileCall, file_read, file_write, file_set, file_move, reply, replies, AllFit,
}
use demandos.Io.View.Open.{system_calls, IsView}
use demandos.Io.View.Refine.{system_calls-replies}
use demandos.Tests.Devices.{ram, ram-IsReliable, small_superblock, small_disk, counting}
use demandos.Tests.Files.{small-IsFile, file_high}
use demandos.Tests.Descriptors.{reading, reading_open}

pub part-IsApart :
    (offset len : ℕ)
    → offset + len ≤ 2 * 1024
    → IsApart ram small_disk small_superblock 3 offset len
part-IsApart offset len fits = record {
  from_inode = λ i k h b e. absurd (omega (arith, file_high (offset + i) (omega arith)));
  from_descriptor = λ i k h b e. absurd (omega (arith, file_high (offset + i) (omega arith)));
}

disk_write-WritesOpen_example :
    WritesOpen zeros 77 ram-IsReliable reading 0 100 counting
      (disk_write zeros 77 reading 0 counting 100)
disk_write-WritesOpen_example =
    disk_write-WritesOpen zeros 77 ram-IsReliable reading 0 100 2 counting refl reading_open
      (omega arith) small-IsFile (part-IsApart 1000 100 (omega arith)) (omega arith)

abbrev pub file_at_1000 : OpenFile
file_at_1000 = record {
  content = λ p. byte_at ram small_disk (file_place ram small_disk small_superblock 3 p);
  pos = 1000;
}

pub file-IsView : IsView reading 0 2 file_at_1000
file-IsView = record {
  running = refl;
  opened = reading_open;
  reads = refl;
  writes = refl;
  seeks = refl;
  at = refl;
  file = small-IsFile;
  apart = part-IsApart 0 2048 (omega arith);
  inode_apart = λ k j a b. omega arith;
  holds = λ p b. refl;
}

abbrev pub no_console : Io ram → Bytes → ℕ → Option (ℕ × Io ram)
no_console io buf size = none

-- Over the border of the blocks; what is read begins before what was written.
abbrev pub write_and_read : List (ℕ × FileCall)
write_and_read =
    (77, file_write 100 counting)
    ∷ (78, file_set 980)
    ∷ (79, file_move 10)
    ∷ (80, file_read 30 zeros)
    ∷ []

pub write_and_read-AllFit : AllFit (2 * 1024) file_at_1000 write_and_read
unfolding AllFit reply
write_and_read-AllFit =
    ((omega arith, omega arith), (omega arith, (omega arith, ((omega arith, omega arith), tt))))

system_calls-replies_example :
    (io' : Io ram) × (system_calls zeros no_console reading 0 write_and_read
      ≡ some ((replies file_at_1000 write_and_read).0, io'))
    × IsView io' 0 2 (replies file_at_1000 write_and_read).1
system_calls-replies_example =
    system_calls-replies zeros ram-IsReliable no_console write_and_read reading 0 2 file_at_1000
      file-IsView write_and_read-AllFit
