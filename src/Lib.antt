-- ===== src/Lib.antt =====
-- demandos: a small kernel for RISC-V that runs one program, with a disk, a console and a timer.
--
-- The parts and the files that model them, the lowest first:
--   Memory        src/memory.c, include/memory.h: storage that is given out once
--                 (Memory/Forever: forever_alloc_aligned, Memory/Align: ALIGN_UP), and the heap of five
--                 arenas (Memory/Arena: initialize_heap, malloc and the macro TRY_ALLOC_FROM).
--   Vring         src/virtio.c, include/virtio.h: the descriptor table and the rings shared with a
--                 device. Vring/Layout is vring_init, which takes its storage from Memory/Forever;
--                 Vring/Added is about vring_add_to_descr;
--                 Vring/Chain is the chain of three descriptors that a sector operation of src/blk.c
--                 posts, as the device reads it; Vring/Wait and Vring/Slots are about waiting for the
--                 device and about the slots of the available ring; Vring/Random is
--                 virtio_get_randomness, Vring/Entropy one request of it, and Vring/DlRandom configure_dl_random of src/os.c.
--   Blk           src/blk.c: reading and writing any range of bytes by sectors. The two sector
--                 operations are an interface, Blk/Device. Blk/Sectors is those operations over the ring
--                 and a device; Blk/Sectors/Refine makes them an instance of the interface,
--                 Blk/Sectors/Reliable is about a device on which no request fails.
--   Ext2          src/ext2.c, include/ext2.h, on top of Blk: Ext2/Structs the packed structs,
--                 Ext2/Inode the inodes on the disk, Ext2/Dirent the search of a directory, Ext2/Path
--                 the walk along a path, Ext2/File the bytes of a file (Ext2/File/Frame is about what
--                 leaves a file in its place), Ext2/Superblock. Ext2/Dirent/Debug is debug_dirent,
--                 Ext2/SelfTest the test test_ext2_implementation, Ext2/Keeps about what only reads.
--   Io            src/io.c, include/io.h: the table of descriptors and the handlers behind them; the
--                 calls of src/strap_handler.c that go through the table are in Io/Handlers.
--                 Io/Console is the handler of the console, Io/Sound what every call keeps. Io/View
--                 is the promise to a program with an open file, an array of bytes and a position;
--                 Io/View/Refine relates the calls read, write and lseek to it, Io/View/Opening open.
--                 Io/View/Beside and Io/View/Interleaved are about two open files at once,
--                 Io/View/Ring about a file whose sectors go over the ring.
--   Drivers       src/virtio_driver.c and the registers of src/virtio.c and src/pci.c: how a driver
--                 starts its device. Drivers/Disk is about the disk, Drivers/Rings and Drivers/Serving
--                 about the rings that a start leaves.
--   Pci           src/pci.c, include/pci.h: the scan of the bus, which calls Drivers. Pci/Address is
--                 about the macros, Pci/Windows and Pci/Scan about the windows of registers that are
--                 given out, Pci/Serving about the rings after a scan.
--   Kernel        src/strap_handler.c: the handlers of the system calls (Kernel/Handlers, and
--                 Kernel/Waiting for the two that wait), their table and the dispatcher
--                 (Kernel/Dispatch), on top of Io, Timer, Vring/Random and the heap. Kernel/Runs and
--                 Kernel/Write are about runs of calls. The handlers write_s, read_s, lseek, close and
--                 openat have the suffix _call there, since their work on descriptors is in Io.
--                 Kernel/Files is about a file behind the dispatcher, Kernel/Sleep about nanosleep_s
--                 and the timer's interrupt together, Kernel/SelfTest the call that runs the test.
--   Timer         src/system.c, src/os.c and the timer interrupt of src/strap_handler.c:
--                 Timer/Comparator is about set_stimecmp, Timer/Deadlines about all that sets a deadline.
--   Print         src/e.c: the emergency console.
--   Programs      Programs/Runtime is src/runtime.c with src/demandos.c, Programs/FsTest is
--                 driver/fs_test_main.c: the system calls that the programs make.
--   Prelude       Boolean tests, words, buffers. Tests holds concrete disks, tables and states.
--
-- How code becomes a definition: a function of the source is a function with the same name (without
-- the prefix virtio_blk_), which takes the state that it reads and returns the state that it leaves,
-- in C's order. An int, a uint32_t and a uint64_t are natural numbers with their wrap-around written
-- out; -1 is the word of all ones. A struct that lies on the disk is the bytes at its address. A
-- pointer to a buffer is a function from offsets to bytes; a buffer that C leaves uninitialised is an
-- argument, `uninit`. The powering-off of the machine, a failed assertion, a call through a NULL pointer
-- and a search that never ends are a `none`.
--
-- Bounds: the loops of Blk and Ext2/File run on as many rounds as there are bytes left, since each
-- round that goes on moves by at least one byte; the search of a directory's block runs on 1024 rounds,
-- which is enough unless a record length is 0, and that is a result of its own. A table has 100
-- descriptors. The wait for a device runs on a number of reads that is an argument, and the
-- theorems about it ask that the device answers within that number.
--
-- A loop of Kernel that waits runs on the rounds that a World allows (Ticks and Interrupts say how its
-- clock and its interrupts run); what it says of a call that
-- returns asks that the clock has come far enough within them. A scan of the bus has 776 rounds, the
-- number of offsets.
--
-- Parameters: the disk (Blk/Device.BlockDevice, whose laws say that a sector operation with status 0
-- has read or written that sector, and that a read changes nothing), and, where that interface is
-- filled, the device of the VIRTIO standard on the other side of the ring (Blk/Sectors.Hardware); the bytes that
-- an entropy device has, which it writes into the chain that it finds (Vring/Entropy.answer); what
-- the registers, `get_stime` and the clock read as; what the memory of a ring holds when it is given
-- out; the function behind the kernel's deferred work; what interrupts do while a call waits; the two
-- computations on doubles; the size of the table of system calls.
--
-- Where a program's memory is a byte at each address, what the kernel keeps (io.c's state, the rings,
-- the disk) is apart from it; a call that is given the address of such an object is not covered.
--
-- The C library is a parameter too: its open, read, write and lseek are taken to pass their arguments to
-- the system calls of those names, what its printf makes of the system is an argument, and getrandom
-- gives any bytes.
--
-- What lies behind an array is not modelled: a buffer is a function of the offset, and so is a table of a
-- ring. Where the source may run past an array, either the definition says so (the `overruns` of
-- Ext2/SelfTest, a name that is printed past its array in Ext2/Dirent/Debug), or the theorem has a hypothesis
-- that keeps it inside (Tiled for the records of a directory's block; the walks along paths take the
-- records of the directories to be so), or it says where the tables lie
-- (IsLaidOut, the `room` of Drivers/Disk.Disks): that a ring serves is said of its counters, slots and
-- descriptors. memcpy between places that overlap is read as memmove. Whether DEBUG_LEVEL > DEBUG_TRACE
-- is an argument, `debug`, where it matters to a result.
--
-- Not modelled: assembly and start-up (src/boot.S, src/strap.S), driver/simple_test_main.c, which only
-- calls the C library, and output for debugging.
pub mod Prelude
pub mod Blk
pub mod Memory
pub mod Vring
pub mod Ext2
pub mod Io
pub mod Timer
pub mod Print
pub mod Drivers
pub mod Pci
pub mod Kernel
pub mod Programs
pub mod Tests
