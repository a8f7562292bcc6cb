-- ===== src/Tests/Beside.antt =====
-- Two open files of the small disk: inode 3 behind descriptor 0, and inode 4 behind descriptor 2.
use demandos.Prelude.{
  ℕ, zero, suc, ◌+◌, ◌*◌, ◌/◌, ◌%◌, ◌<◌, ◌≤◌, ◌≡◌, refl, arith, true, false, some, List, [], ◌∷◌,
  zeros,
}
use demandos.Blk.Device.{byte_at}
use demandos.Ext2.Structs.{i_block}
use demandos.Ext2.Inode.Laws.{inode_on}
use demandos.Ext2.File.Frame.{file_place, IsFile}
use demandos.Io.{Io, is_fd_open, is_fd_valid}
use demandos.Io.Calls.{opened_state}
use demandos.Io.View.{OpenFile, file_read, file_write, file_set, reply}
use demandos.Io.View.Open.{IsView}
use demandos.Io.View.Beside.{IsBeside, AreBeside}
use demandos.Io.View.Interleaved.{Turn, turns, both, BothFit, turns-both}
use demandos.Tests.Devices.{ram, ram-IsReliable, small_superblock, small_disk, counting}
use demandos.Tests.Files.{small-IsFile, file_high}
use demandos.Tests.Descriptors.{started}
use demandos.Tests.Open.{part-IsApart, no_console}

abbrev two_open : Io ram
two_open = opened_state (opened_state started 0 3 small_disk) 2 4 small_disk

below_one : (P : ℕ → Type 0) → P 0 → (i : ℕ) → i < 1 → P i
below_one P a zero h = a
below_one P a (suc i) h = absurd (omega arith)

below_two : (P : ℕ → Type 0) → P 0 → P 1 → (i : ℕ) → i < 2 → P i
below_two P a b zero h = a
below_two P a b (suc zero) h = b
below_two P a b (suc (suc i)) h = absurd (omega arith)

-- The second file is block 13.
fourth_block : (i : ℕ) → i < 1 → i_block (inode_on ram small_disk small_superblock 4) i ≡ 13
fourth_block = below_one (λ i. i_block (inode_on ram small_disk small_superblock 4) i ≡ 13) refl

fourth_place : (p : ℕ) → p < 1024 → file_place ram small_disk small_superblock 4 p ≡ 13312 + p
fourth_place p h =
    let block = fourth_block (p / 1024) (omega arith) in
    let low : p % 1024 ≡ p = omega arith in rw (block, low) refl

third_low : (p : ℕ) → p < 2048 → file_place ram small_disk small_superblock 3 p < 13312
third_low p h =
    let number =
      below_two (λ i. i_block (inode_on ram small_disk small_superblock 3) i ≤ 12) (omega arith)
        (omega arith) (p / 1024) (omega arith) in
    omega arith

fourth-IsFile : IsFile ram small_disk small_superblock 4 1
fourth-IsFile = record {
  inode = record {
    positive = omega arith;
    word = omega arith;
    grouped = omega arith;
    table_low = omega arith;
  };
  mapped = record {
    direct = omega arith;
    low = λ i h. rw (fourth_block i h) (omega arith);
    apart = λ i j h k e. omega arith;
  };
}

first-IsView : IsView two_open 0 2 (record {
  content = λ p. byte_at ram small_disk (file_place ram small_disk small_superblock 3 p);
  pos = 0;
})
unfolding is_fd_open is_fd_valid
first-IsView = record {
  running = refl;
  opened = refl;
  reads = refl;
  writes = refl;
  seeks = refl;
  at = refl;
  file = small-IsFile;
  apart = part-IsApart 0 2048 (omega arith);
  inode_apart = λ k j a b. omega arith;
  holds = λ p b. refl;
}

abbrev second_file : OpenFile
second_file = record {
  content = λ p. byte_at ram small_disk (file_place ram small_disk small_superblock 4 p);
  pos = 0;
}

second-IsView : IsView two_open 2 1 second_file
unfolding is_fd_open is_fd_valid
second-IsView = record {
  running = refl;
  opened = refl;
  reads = refl;
  writes = refl;
  seeks = refl;
  at = refl;
  file = fourth-IsFile;
  apart = record {
    from_inode = λ i k h b e. absurd (omega (arith, fourth_place (0 + i) (omega arith)));
    from_descriptor = λ i k h b e. absurd (omega (arith, fourth_place (0 + i) (omega arith)));
  };
  inode_apart = λ k j a b. omega arith;
  holds = λ p b. refl;
}

first-IsBeside : IsBeside two_open 0 2 2 1
first-IsBeside = record {
  content = λ p h. (
    λ i b e. omega (arith, e, third_low i b, fourth_place p h),
    λ k b e. omega (arith, e, fourth_place p h),
  );
  pointers = λ k l h. (λ i b e. omega (arith, e, file_high i b), λ j b e. omega (arith, e));
  table = λ k h. (λ i b e. omega (arith, e, file_high i b), λ j b e. omega (arith, e));
}

second-IsBeside : IsBeside two_open 2 1 0 2
second-IsBeside = record {
  content = λ p h. (
    λ i b e. omega (arith, e, third_low p h, fourth_place i b),
    λ k b e. omega (arith, e, file_high p h),
  );
  pointers = λ k l h. (λ i b e. omega (arith, e, fourth_place i b), λ j b e. omega (arith, e));
  table = λ k h. (λ i b e. omega (arith, e, fourth_place i b), λ j b e. omega (arith, e));
}

abbrev first_file : OpenFile
first_file = record {
  content = λ p. byte_at ram small_disk (file_place ram small_disk small_superblock 3 p);
  pos = 0;
}

two-AreBeside : AreBeside two_open 0 2 2 1 first_file second_file
two-AreBeside = record {
  differ = omega arith;
  first = first-IsView;
  second = second-IsView;
  beside = first-IsBeside;
  back = second-IsBeside;
}

-- The first writes, the second writes and reads, and the first reads.
abbrev in_turn : List Turn
in_turn =
    (true, 70, file_write 1500 counting)
    ∷ (false, 71, file_write 9 zeros)
    ∷ (false, 72, file_set 4)
    ∷ (false, 73, file_read 9 zeros)
    ∷ (true, 74, file_read 1500 zeros)
    ∷ []

in_turn-BothFit : BothFit (2 * 1024) (1 * 1024) first_file second_file in_turn
unfolding BothFit reply
in_turn-BothFit = (
  (omega arith, omega arith),
  (
    (omega arith, omega arith),
    (omega arith, ((omega arith, omega arith), ((omega arith, omega arith), tt))),
  ),
)

turns-both_example :
    (io' : Io ram) × (turns zeros no_console two_open 0 2 in_turn
      ≡ some ((both first_file second_file in_turn).0, io'))
    × AreBeside io' 0 2 2 1
        ((both first_file second_file in_turn).1.0)
        ((both first_file second_file in_turn).1.1)
turns-both_example =
    turns-both zeros ram-IsReliable no_console 0 2 2 1 in_turn two_open first_file second_file
      two-AreBeside in_turn-BothFit
