-- ===== src/Memory.antt =====
-- src/memory.c and include/memory.h: storage that is given out for ever, and the arenas of
-- `malloc`. There is no `free` to model: the header declares it and no file defines it.
pub mod Align
pub mod Forever
pub mod Arena
