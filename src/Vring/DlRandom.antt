-- ===== src/Vring/DlRandom.antt =====
-- `configure_dl_random` of src/os.c: the random word that the C library of the program is given.
use demandos.Prelude.{
  ℕ, ◌+◌, ◌*◌, ◌^◌, ◌<◌, ◌≡◌, ◌∙◌, refl, ap₂, arith, Bytes, Bool, true, Option, none, some, zeros,
  ◌==◌, ◌>>=◌, if◌then◌else◌, w16, le32, le64, le32_cong,
}
use demandos.Vring.{Vring}
use demandos.Vring.Added.{IsReady}
use demandos.Vring.Entropy.{Slots}
use demandos.Vring.Wait.{Serves}
use demandos.Vring.Random.{virtio_get_randomness, virtio_get_randomness-Fills}

module _ (patience buf : ℕ) (reads : ℕ → ℕ → ℕ) (chunks : ℕ → Bytes) where
  -- `dl_random_bytes` and the ring; `none` is the power-off when there is no entropy.
  unfoldable pub configure_dl_random : Bool → Vring → Option (ℕ × Vring)
  configure_dl_random initialized v =
      virtio_get_randomness patience buf reads chunks initialized v zeros 8 >>= λ r.
      if r.0 == 8 then some (le64 r.1 0, r.2) else none

  -- With the driver running, a ring that is ready and whose slots name the next descriptor, as they do
  -- where its memory was zero, and a device that serves, the word is the first chunk of the device.
  pub configure_dl_random_lem :
      (start : ℕ) (v : Vring)
      → ((k : ℕ) → Serves patience (w16 (start + k)) (reads k))
      → buf < 2 ^ 64
      → IsReady v
      → Slots buf v v.descr_next
      → v.used_last ≡ w16 start
      → (v' : Vring) × (configure_dl_random true v ≡ some (le64 (chunks 0) 0, v'))
  unfolding configure_dl_random
  configure_dl_random_lem start v serves low ready slots counted =
      let (bytes, v', ends, all, _, _) =
        virtio_get_randomness-Fills patience buf reads chunks start low serves v zeros 8 ready slots
          counted (omega arith) in
      let at : (i : ℕ) → i < 8 → bytes i ≡ chunks 0 i =
        λ i h. all.random i (omega arith) h ∙ ap₂ chunks (omega arith) (omega arith) in
      let word : (i : ℕ) → i + 3 < 8 → le32 bytes i ≡ le32 (chunks 0) i = λ i h.
        le32_cong bytes (chunks 0) i i (at i (omega arith)) (at (i + 1) (omega arith))
          (at (i + 2) (omega arith)) (at (i + 3) h) in
      let whole : le64 bytes 0 ≡ le64 (chunks 0) 0 =
        ap₂ (λ x y. x + y * 2 ^ 32) (word 0 (omega arith)) (word 4 (omega arith)) in
      (v', rw (ends, whole) refl)
