-- ===== src/Programs.antt =====
-- The programs that are linked with the kernel, by the system calls that they make: src/runtime.c with
-- src/demandos.c, and driver/fs_test_main.c.
pub mod FsTest
pub mod Runtime
