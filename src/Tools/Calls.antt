-- ===== src/Tools/Calls.antt =====
-- `_time_calls` and `measure_crypto_throughput` of tools/baseline.py.
pub mod Returned
use sodtware_dev_ops_gp_proj.Base.{
  ℕ, zero, suc, ◌+◌, ◌-◌, ◌≡◌, refl, List, [], ◌∷◌, ◌++◌, Bytes, Text, length, length-append, arith,
}
use sodtware_dev_ops_gp_proj.Base.Result.{ok}
use sodtware_dev_ops_gp_proj.Base.Exec.{Exec, pure, lift, ◌>>=◌, ◌>>◌}
use sodtware_dev_ops_gp_proj.Legacy.Cipher.{Cipher}
use sodtware_dev_ops_gp_proj.Legacy.Frame.{encrypt_frame, decrypt_frame}
use sodtware_dev_ops_gp_proj.Tools.Rig.{Rig}
use sodtware_dev_ops_gp_proj.Tools.Summary.{Statistics, Timing, summarise_calls}

abbrev pub crypto_iterations : ℕ
crypto_iterations = 5000

pub record CryptoTimings (F : Type 0) : Type 0 where
  pub encrypting : Timing F
  pub decrypting : Timing F

module _ {W : Type 0} (r : Rig W) where
  -- One call, and its duration.
  abbrev pub one_call : Exec W (Unit {0}) → Exec W ℕ
  one_call fn w = (fn >>= λ _ v. (ok (r.perf_counter v - r.perf_counter w), v)) w

  -- The loop, with the samples so far.
  unfoldable pub call_all : Exec W (Unit {0}) → ℕ → List ℕ → Exec W (List ℕ)
  call_all fn zero samples = pure samples
  call_all fn (suc n) samples = one_call fn >>= λ d. call_all fn n (samples ++ d ∷ [])

  -- `_time_calls`
  unfoldable pub time_calls :
      {F : Type 0} → Statistics F → (F → F) → Exec W (Unit {0}) → ℕ → Exec W (Timing F)
  time_calls s rate fn iterations = do
    samples ← call_all fn iterations []
    lift (summarise_calls s rate iterations samples)

  abbrev pub encrypt_once : Cipher → Bytes → Text → Exec W Bytes
  encrypt_once k key reference w =
      let (random, v) = r.random w in (encrypt_frame k key random reference, v)

  -- `measure_crypto_throughput`, with the reference record as an argument.
  unfoldable pub measure_crypto_throughput :
      {F : Type 0} → Cipher → Bytes → Statistics F → (F → F) → Text → Exec W (CryptoTimings F)
  measure_crypto_throughput k key s rate reference = do
    frame ← encrypt_once k key reference
    encrypting ← time_calls s rate (encrypt_once k key reference >> pure tt) crypto_iterations
    decrypting ← time_calls s rate (lift (decrypt_frame k key frame) >> pure tt) crypto_iterations
    pure (record { encrypting = encrypting; decrypting = decrypting })
