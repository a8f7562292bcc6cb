-- ===== src/Tests/Copies.antt =====
-- A program that copies a hundred of its bytes through the file with inode 3 of the small disk.
use demandos.Prelude.{ℕ, ◌+◌, ◌<◌, ◌≤◌, ◌≡◌, ◌⊎◌, refl, arith, none}
use demandos.Kernel.{System, returned}
use demandos.Kernel.Dispatch.{system_call_dispatcher}
use demandos.Kernel.Files.{system_call_dispatcher_copy}
use demandos.Tests.Devices.{ram, ram-IsReliable, counting}
use demandos.Tests.Descriptors.{reading}
use demandos.Tests.Open.{file_at_1000, file-IsView}
use demandos.Tests.Calls.{kernel, world, arguments, nr_syscalls}

abbrev with_file : System ram
with_file = record kernel { io = reading; memory = counting }

system_call_dispatcher_copy_example :
    (s' : System ram) × (s'' : System ram) × (system_call_dispatcher world nr_syscalls with_file 64
        (arguments 0 5000 100)
      ≡ returned 100 s')
    × (system_call_dispatcher world nr_syscalls s' 63 (arguments 0 7000 100) ≡ returned 100 s'')
    × ((i : ℕ) → i < 100 → s''.memory (7000 + i) ≡ counting (5000 + i))
    × ((j : ℕ) → (j < 7000) ⊎ (7000 + 100 ≤ j) → s''.memory j ≡ counting j)
system_call_dispatcher_copy_example =
    system_call_dispatcher_copy nr_syscalls ram-IsReliable world world (λ i. none) with_file 2
      file_at_1000 (arguments 0 5000 100) (arguments 0 7000 100) refl (omega arith) file-IsView refl
      refl (omega arith) (omega arith)
