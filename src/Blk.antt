-- ===== src/Blk.antt =====
-- src/blk.c and include/blk.h: reading and writing any range of bytes by whole sectors.
-- A sector operation is one of an interface, `Device.BlockDevice`.
pub mod Device
pub mod Read
pub mod Write
pub mod RoundTrip
pub mod Sectors
use demandos.Prelude.{
  ℕ, zero, suc, ◌+◌, ◌-◌, ◌/◌, ◌%◌, ◌≤◌, ◌<◌, ◌≡◌, ◌⊎◌, arith, Bytes, zeros, copy, ltb, ◌==◌,
  if◌then◌else◌, w64,
}
use Device.{BlockDevice, sector_size}

unfoldable pub sector_from_pos : ℕ → ℕ
sector_from_pos pos = pos / sector_size

unfoldable pub sector_offset_from_pos : ℕ → ℕ
sector_offset_from_pos pos = pos % sector_size

-- The macro MIN of include/util.h.
unfoldable pub min_of : ℕ → ℕ → ℕ
min_of x y = if ltb x y then x else y

pub min_of_le : (x y : ℕ) → (min_of x y ≤ x) × (min_of x y ≤ y)
unfolding min_of
min_of_le x y = ground arith

pub min_of_cases : (x y : ℕ) → (min_of x y ≡ x) ⊎ (min_of x y ≡ y)
unfolding min_of
min_of_cases x y = ground arith

pub min_of_pos : (x y : ℕ) → 0 < x → 0 < y → 0 < min_of x y
unfolding min_of
min_of_pos x y h k = ground arith

module _ (dev : BlockDevice) where
  open dev use {State, read_sector, write_sector}

  -- The loop of `virtio_blk_read_sync` from `read_amt` on: the bytes read, the buffer and the
  -- state. A round reads at least one byte, so `size` rounds are enough.
  unfoldable pub read_loop : ℕ → State → Bytes → ℕ → ℕ → ℕ → ℕ × Bytes × State
  unfolding sector_from_pos sector_offset_from_pos
  read_loop zero s output offset size read_amt = (read_amt, output, s)
  read_loop (suc rounds) s output offset size read_amt =
      let pos = w64 (offset + read_amt) in
      let sector_offset = sector_offset_from_pos pos in
      let last_read_amt = min_of (size - read_amt) (sector_size - sector_offset) in
      let (read_result, blk, s') = read_sector s (sector_from_pos pos) zeros in
      let rest =
        read_loop rounds s' (copy output read_amt blk sector_offset last_read_amt) offset size
          (read_amt + last_read_amt) in
      if ltb read_amt size
      then (if read_result == 0 then rest else (read_amt, output, s'))
      else (read_amt, output, s)

  unfoldable pub read_sync : State → Bytes → ℕ → ℕ → ℕ × Bytes × State
  unfolding read_loop
  read_sync s output offset size = read_loop size s output offset size 0

  -- The loop of `virtio_blk_write_sync`: each sector is read, changed and written back.
  unfoldable pub write_loop : ℕ → State → Bytes → ℕ → ℕ → ℕ → ℕ × State
  unfolding sector_from_pos sector_offset_from_pos
  write_loop zero s input offset size write_amt = (write_amt, s)
  write_loop (suc rounds) s input offset size write_amt =
      let pos = w64 (offset + write_amt) in
      let sector = sector_from_pos pos in
      let sector_offset = sector_offset_from_pos pos in
      let (read_result, blk, s') = read_sector s sector zeros in
      let last_write_amt = min_of (size - write_amt) (sector_size - sector_offset) in
      let (write_result, s'') =
        write_sector s' sector (copy blk sector_offset input write_amt last_write_amt) in
      let rest = write_loop rounds s'' input offset size (write_amt + last_write_amt) in
      let written = if write_result == 0 then rest else (write_amt, s'') in
      if ltb write_amt size
      then (if read_result == 0 then written else (write_amt, s'))
      else (write_amt, s)

  unfoldable pub write_sync : State → Bytes → ℕ → ℕ → ℕ × State
  unfolding write_loop
  write_sync s input offset size = write_loop size s input offset size 0
