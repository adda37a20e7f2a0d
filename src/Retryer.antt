-- ===== src/Retryer.antt =====
-- The retryers of v2/call_option.go.
pub mod Laws
pub mod Policy
use gax_go.Prelude.{
  ℕ, List, [], ◌∷◌, Option, none, some, Bool, true, false, if◌then◌else◌, ◌==◌, ◌>>=◌, ◌≡◌,
}
use gax_go.Prelude.Int.{ℤ, pos, eq_ℤ}
use gax_go.Backoff.{Duration, Runtime, Backoff, pause}
use gax_go.Apierror.Types.{ErrorApi}

-- The two results of `Retry`.
pub record Verdict : Type 0 where
  pub pause : Duration
  pub should_retry : Bool

-- The map from codes to true; a missing key reads as false.
unfoldable pub code_set : List ℤ → (ℤ → Bool) → ℤ → Bool
code_set [] codes = codes
code_set (c ∷ cs) codes = code_set cs (λ d. if eq_ℤ c d then true else codes d)

-- The loop over the codes.
unfoldable pub has_code : List ℕ → ℕ → Bool
has_code [] c = false
has_code (rc ∷ cs) c = if c == rc then true else has_code cs c

module _ (api : ErrorApi) (rt : Runtime) where
  pub data Retryer : Type 0 where
    error_retryer : Backoff rt → (api.Err → Bool) → Retryer
    bo_retryer : Backoff rt → List ℕ → Retryer
    http_retryer : Backoff rt → (ℤ → Bool) → Retryer

  unfoldable pub on_error_func : Backoff rt → (api.Err → Bool) → Retryer
  on_error_func bo should_retry = error_retryer bo should_retry

  unfoldable pub on_codes : List ℕ → Backoff rt → Retryer
  on_codes cc bo = bo_retryer bo cc

  unfoldable pub on_http_codes : Backoff rt → List ℤ → Retryer
  unfolding code_set
  on_http_codes bo cc = http_retryer bo (code_set cc (λ _. false))

  -- What `Retry` returns, with the receiver and the random source that it leaves.
  abbrev pub Retried : Type 0
  Retried = Verdict × Retryer × rt.Seed

  abbrev pub no_retry : Verdict
  no_retry = record { pause = pos 0; should_retry = false }

  unfoldable pub pause_and_retry : Backoff rt → (Backoff rt → Retryer) → rt.Seed → Option Retried
  pause_and_retry bo put_back s = do
    p ← pause rt bo s
    some (record { pause = p.delay; should_retry = true }, put_back p.backoff, p.seed)

  unfoldable pub retry : Retryer → api.Err → rt.Seed → Option Retried
  unfolding pause_and_retry has_code
  retry (error_retryer bo should_retry) err s =
      if should_retry err
      then pause_and_retry bo (λ b. error_retryer b should_retry) s
      else some (no_retry, error_retryer bo should_retry, s)
  retry (bo_retryer bo cc) err s = elim (api.from_status err) [
    | none ↦ some (no_retry, bo_retryer bo cc, s)
    | some st ↦
        if has_code cc st.code
        then pause_and_retry bo (λ b. bo_retryer b cc) s
        else some (no_retry, bo_retryer bo cc, s)
  ]
  retry (http_retryer bo codes) err s = elim (api.as_http err) [
    | none ↦ some (no_retry, http_retryer bo codes, s)
    | some gerr ↦
        if codes gerr.code
        then pause_and_retry bo (λ b. http_retryer b codes) s
        else some (no_retry, http_retryer bo codes, s)
  ]
