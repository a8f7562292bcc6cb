-- ===== src/Tests/Descriptors.antt =====
-- A table with the console, and with the file "testing.txt" of the small disk.
use demandos.Prelude.{ℕ, ◌≡◌, ◌≢◌, arith, refl, zeros, true, false, none, some, ◌∷◌, copy}
use demandos.Blk.{sector_from_pos, sector_offset_from_pos, min_of, read_loop, read_sync}
use demandos.Ext2.Structs.{inode_table_loc, inode_loc_in_table}
use demandos.Ext2.Inode.{bg_from_bgno, ino_disk_offset, inode_from_ino}
use demandos.Ext2.Dirent.{name_matches, copy_entry, search_block, search_blocks, inode_from_dir}
use demandos.Ext2.Path.{tokens_from, tokens, follow, ino_from_path}
use demandos.Io.{
  Io, IoDescriptor, is_fd_valid, is_fd_open, set_fd, next_fd_from, next_fd, configure_stdio,
}
use demandos.Io.Handlers.{disk_read, disk_seek, close_fd, open_fd, read_s, seek_cur}
use demandos.Io.Laws.{
  IsTable, IsInitial, configured, closed, sought, Steps, done, next, Steps-IsTable_initial,
}
use demandos.Io.Calls.{read_s_null, opened_state, close_fd-open_fd}
use demandos.Io.Files.{ReadsOpen, disk_read-ReadsOpen}
use demandos.Programs.FsTest.{testing_path}
use demandos.Tests.Devices.{ram, ram-IsReliable, small_superblock, small_disk, counting}
use demandos.Tests.Sectors.{served_ring}
use demandos.Tests.Files.{small-IsFile}

abbrev shut : IoDescriptor
shut = record {
  is_open = false;
  pos = 0;
  ino = 0;
  write_handler = none;
  read_handler = none;
  seek_handler = none;
}

abbrev pub started : Io ram
started = record {
  fds = λ i. shut;
  superblock = small_superblock;
  superblock_mounted = true;
  blk_initialized = true;
  disk_state = small_disk;
  console_initialized = true;
  console = served_ring;
}

-- The file with inode 3 is descriptor 0, at 1000.
abbrev pub reading : Io ram
reading = opened_state (set_fd started 0 (record shut { pos = 1000 })) 0 3 small_disk

pub started-IsInitial : IsInitial started
started-IsInitial fd = (refl, refl, refl, refl)

-- The console is opened, moved in vain, and closed.
console-Steps : Steps started (close_fd (disk_seek (configure_stdio started) 1 7 seek_cur).1 1).1
console-Steps = next configured (next (sought 1 7 seek_cur) (next (closed 1) done))

console-IsTable : IsTable (configure_stdio started)
console-IsTable =
    Steps-IsTable_initial started (configure_stdio started) started-IsInitial (next configured done)

-- A read of the console calls through a NULL pointer.
console_read : read_s zeros 9 (configure_stdio started) 1 counting 5 ≡ none
unfolding configure_stdio is_fd_open is_fd_valid
console_read =
    (read_s_null zeros 9 (configure_stdio started) 1 counting 5 7 0 console-IsTable).0.1
      (refl, refl)

pub first_free : next_fd started ≡ some 0
unfolding next_fd next_fd_from
first_free = refl

path_found :
    ino_from_path ram zeros small_disk small_superblock (47 ∷ testing_path)
    ≡ some (true, some 3, small_disk)
unfolding ino_from_path follow tokens tokens_from inode_from_dir search_blocks search_block
    copy_entry name_matches copy inode_from_ino ino_disk_offset bg_from_bgno inode_table_loc
    inode_loc_in_table read_sync read_loop sector_from_pos sector_offset_from_pos min_of
path_found = refl

close_fd-open_fd_example :
    let there = opened_state started 0 3 small_disk in
    (open_fd zeros started (47 ∷ testing_path) ≡ some (0, there))
    × ((close_fd there 0).0 ≡ 0)
    × (next_fd (close_fd there 0).1 ≡ some 0)
    × ((i : ℕ) → i ≢ 0 → (close_fd there 0).1.fds i ≡ started.fds i)
close_fd-open_fd_example =
    close_fd-open_fd zeros started (47 ∷ testing_path) 0 3 small_disk refl refl first_free
      path_found

pub reading_open : is_fd_open reading 0 ≡ true
unfolding is_fd_open is_fd_valid
reading_open = refl

disk_read-ReadsOpen_example :
    ReadsOpen zeros 77 ram-IsReliable reading 0 100 counting
      (disk_read zeros 77 reading 0 counting 100)
disk_read-ReadsOpen_example =
    disk_read-ReadsOpen zeros 77 ram-IsReliable reading 0 100 2 counting refl reading_open
      (omega arith) (omega arith) small-IsFile (omega arith)
