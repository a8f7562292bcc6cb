-- ===== src/Tests/Blocks.antt =====
-- Ranges of bytes on a disk that works and on one that does not.
use demandos.Prelude.{ℕ, ◌<◌, ◌≡◌, arith, zeros, refl}
use demandos.Blk.{sector_from_pos, sector_offset_from_pos, min_of, read_loop, read_sync, write_sync}
use demandos.Blk.Read.{Reads, Stops, read_sync-Reads}
use demandos.Blk.Write.{Writes, write_sync-Writes}
use demandos.Blk.RoundTrip.{read_sync-write_sync}
use demandos.Tests.Devices.{ram, ram-IsReliable, broken, small_disk, counting}

-- 112 bytes are read before the sector that cannot be used.
short_read : (read_sync broken small_disk zeros 400 300).0 ≡ 112
unfolding read_sync read_loop sector_from_pos sector_offset_from_pos min_of
short_read = refl

read_sync-Reads_example :
    Reads broken small_disk zeros 400 0 (read_sync broken small_disk zeros 400 300)
    × Stops broken 400 300 (read_sync broken small_disk zeros 400 300).0
read_sync-Reads_example = read_sync-Reads broken small_disk zeros 400 300 (omega arith)

write_sync-Writes_example :
    Writes broken small_disk counting 400 300 0 (write_sync broken small_disk counting 400 300)
write_sync-Writes_example = write_sync-Writes broken small_disk counting 400 300 (omega arith)

-- What is written over three sectors is what is read there.
what_was_written :
    let r = read_sync ram (write_sync ram small_disk counting 400 300).1 zeros 400 300 in
    (r.0 ≡ 300) × ((i : ℕ) → i < 300 → r.1 i ≡ counting i)
what_was_written =
    read_sync-write_sync ram small_disk counting zeros 400 300 ram-IsReliable (omega arith)
