-- ===== src/Kernel/SelfTest.antt =====
-- `internal_unit_test_s` of src/strap_handler.c where it is compiled with ENABLE_TESTS.
use demandos.Prelude.{◌≡◌, refl, Bool}
use demandos.Blk.Device.{BlockDevice}
use demandos.Ext2.Keeps.{Same}
use demandos.Ext2.SelfTest.{
  Verdict, passes, refuses, powers_off, overruns, hangs, test_ext2_implementation,
}
use demandos.Ext2.SelfTest.Spares.{Spares, test_ext2_implementation-Spares}
use demandos.Kernel.{System, World, Outcome, returned, powered_off, no_return}

module _ {dev : BlockDevice} where
  -- The system with another state of the disk.
  abbrev pub with_disk : System dev → dev.State → System dev
  with_disk s t = record s { io = record s.io { disk_state = t } }

  -- The result of the test is not looked at.
  unfoldable pub after_test : System dev → Verdict dev.State → Outcome dev
  after_test s (passes said t) = returned 0 (with_disk s t)
  after_test s (refuses said t) = returned 0 (with_disk s t)
  after_test s (powers_off said t) = powered_off (with_disk s t)
  after_test s (overruns said) = no_return
  after_test s hangs = no_return

  -- `debug` is DEBUG_LEVEL > DEBUG_TRACE.
  unfoldable pub internal_unit_test_s_tests : Bool → World → System dev → Outcome dev
  unfolding after_test
  internal_unit_test_s_tests debug w s =
      after_test s (test_ext2_implementation dev w.uninit debug s.io.disk_state)

  -- The call ends with 0 or powers off, with nothing changed but the disk's state, and the disk is as it
  -- was; or it does not end, or the test overran its array.
  abbrev pub IsTested : System dev → Outcome dev → Type 0
  IsTested s (returned result s') =
      (result ≡ 0) × (s' ≡ with_disk s s'.io.disk_state) × Same dev s.io.disk_state s'.io.disk_state
  IsTested s (powered_off s') =
      (s' ≡ with_disk s s'.io.disk_state) × Same dev s.io.disk_state s'.io.disk_state
  IsTested s no_return = Unit

  after_test-IsTested :
      (debug : Bool) (w : World) (s : System dev) (v : Verdict dev.State)
      → Spares dev w.uninit debug s.io.disk_state v
      → IsTested s (after_test s v)
  unfolding after_test
  after_test-IsTested debug w s (passes said t) h = (refl, refl, h)
  after_test-IsTested debug w s (refuses said t) h = absurd h
  after_test-IsTested debug w s (powers_off said t) h = (refl, h)
  after_test-IsTested debug w s (overruns said) h = tt
  after_test-IsTested debug w s hangs h = tt

  -- Compiled with the tests, on any device: where the call ends, by returning 0 or by powering the
  -- machine off, no byte of the disk has changed, and nothing else of the kernel's state. Buffers have no
  -- end here: a directory entry whose record runs past its block is outside what this says of the source.
  pub internal_unit_test_s_tests-IsTested :
      (debug : Bool) (w : World) (s : System dev)
      → IsTested s (internal_unit_test_s_tests debug w s)
  unfolding internal_unit_test_s_tests
  internal_unit_test_s_tests-IsTested debug w s =
      after_test-IsTested debug w s _
        (test_ext2_implementation-Spares dev w.uninit debug s.io.disk_state)
