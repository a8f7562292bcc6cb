-- ===== src/Tests/Running.antt =====
-- The programs on the kernel with the small disk.
use demandos.Prelude.{
  ℕ, ◌≡◌, refl, arith, Bool, true, false, none, some, List, ◌∷◌, zeros, copy, ltb, if◌then◌else◌,
}
use demandos.Memory.Arena.{malloc, try_alloc_from, scan, store}
use demandos.Io.{Io}
use demandos.Io.View.{Reply}
use demandos.Kernel.{System, Outcome, returned, powered_off, no_return}
use demandos.Kernel.Dispatch.{
  system_call_dispatcher, run_handler, configure_syscall_handlers, assign_all,
}
use demandos.Kernel.Handlers.{mount_hd_s}
use demandos.Programs.FsTest.{
  hello_size, hello_text, testing_path, string, fs_test, what_read, fs_test-what_read,
}
use demandos.Programs.Runtime.{starting_up, wait_time, mount_hd, main, Ticks, times, main-times}
use demandos.Tests.Devices.{ram, ram-IsReliable, small_superblock, small_disk, counting}
use demandos.Blk.{sector_from_pos, sector_offset_from_pos, min_of, read_loop, read_sync}
use demandos.Ext2.Structs.{inode_table_loc, inode_loc_in_table}
use demandos.Ext2.Inode.{bg_from_bgno, ino_disk_offset, inode_from_ino}
use demandos.Ext2.Dirent.{name_matches, copy_entry, search_block, search_blocks, inode_from_dir}
use demandos.Ext2.Path.{tokens_from, tokens, follow, ino_from_path}
use demandos.Io.Handlers.{open_fd}
use demandos.Io.Calls.{opened_state}
use demandos.Io.View.Open.{IsView}
use demandos.Io.View.Opening.{IsStored, stored_file, open_fd-IsView}
use demandos.Tests.Descriptors.{started, first_free}
use demandos.Tests.Files.{small-IsFile}
use demandos.Tests.Open.{part-IsApart, no_console}
use demandos.Tests.Calls.{kernel, world, arguments, nr_syscalls, state_after}

testing_path_found :
    ino_from_path ram zeros small_disk small_superblock testing_path
    ≡ some (true, some 3, small_disk)
unfolding ino_from_path follow tokens tokens_from inode_from_dir search_blocks search_block
    copy_entry name_matches copy inode_from_ino ino_disk_offset bg_from_bgno inode_table_loc
    inode_loc_in_table read_sync read_loop sector_from_pos sector_offset_from_pos min_of
testing_path_found = refl

small-IsStored : IsStored ram small_disk small_superblock 3 2
small-IsStored = record {
  file = small-IsFile;
  apart = part-IsApart 0 2048 (omega arith);
  inode_apart = λ k j a b. omega arith;
}

open_fd-IsView_example :
    (open_fd zeros started testing_path ≡ some (0, opened_state started 0 3 small_disk))
    × IsView (opened_state started 0 3 small_disk) 0 2 (stored_file started 0 3)
open_fd-IsView_example =
    open_fd-IsView started 0 3 2 zeros testing_path small_disk refl refl first_free
      testing_path_found small-IsStored

fs_test-what_read_example :
    (given : List Reply) × (io' : Io ram) × (fs_test zeros no_console started (λ n. n) counting
      ≡ some (given, io'))
    × ((i : ℕ) → what_read given i ≡ (if ltb i hello_size then string hello_text i else 0))
fs_test-what_read_example =
    fs_test-what_read zeros no_console ram-IsReliable started 0 3 2 small_disk (λ n. n) counting
      refl refl first_free refl testing_path_found small-IsStored (omega arith)

abbrev mounting : Outcome ram
mounting = mount_hd nr_syscalls world (arguments 0 0 0) kernel

abbrev is_returned : Outcome ram → Bool
is_returned (returned result s) = true
is_returned (powered_off s) = false
is_returned no_return = false

abbrev result_of : Outcome ram → ℕ
result_of (returned result s) = result
result_of (powered_off s) = 0
result_of no_return = 0

is_returned_lem :
    (o : Outcome ram) → is_returned o ≡ true → o ≡ returned (result_of o) (state_after o)
is_returned_lem (returned result s) e = refl
is_returned_lem (powered_off s) e = cc
is_returned_lem no_return e = cc

mounted : is_returned mounting ≡ true
unfolding mount_hd system_call_dispatcher run_handler mount_hd_s malloc try_alloc_from scan store
    configure_syscall_handlers assign_all
mounted = refl

world-Ticks : Ticks world wait_time
world-Ticks = record {
  exact = record { readings = λ j. ground arith; small = omega arith; is_past_lem = λ now h. refl };
  past_at = 5;
  within = omega arith;
  past = omega arith;
}

main-times_example :
    (s' : System ram) × (main nr_syscalls
        (λ n. world)
        (arguments 0 0 0)
        6000
        (λ n s. s)
        7
        world
        kernel
      ≡ some (starting_up ∷ times 7, s'))
main-times_example =
    main-times nr_syscalls (λ i. none) (omega arith) (λ n. world) (arguments 0 0 0) 6000 (λ n s. s)
      (λ n s. refl) (λ n. world-Ticks) 7 world kernel (state_after mounting) (result_of mounting)
      refl (is_returned_lem mounting mounted)
