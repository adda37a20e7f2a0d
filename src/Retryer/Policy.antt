-- ===== src/Retryer/Policy.antt =====
-- The three kinds of retryers, `OnErrorFunc`, `OnCodes` and `OnHTTPCodes`, as one family.
use gax_go.Prelude.{ℕ, ◌≤◌, ◌≡◌, refl, List, some, true, Bool, Bool-cases, inl, inr}
use gax_go.Prelude.Int.{ℤ}
use gax_go.Backoff.{Runtime, IsRandom, Backoff}
use gax_go.Backoff.Bounds.{IsValid}
use gax_go.Apierror.Types.{ErrorApi, Status, HttpError}
use gax_go.Retryer.{Retryer, error_retryer, on_error_func, on_codes, on_http_codes, retry}
use gax_go.Retryer.Laws.{
  Answers, Answers-retry, Answers-no, IsIn, retry-on_codes, retry-on_http_codes,
}

-- What a retryer is made from, besides its backoff.
pub data Policy (api : ErrorApi) : Type 0 where
  on_func : (ErrorApi.Err api → Bool) → Policy api
  on_grpc : List ℕ → Policy api
  on_http : List ℤ → Policy api

abbrev pub retryer_of : (api : ErrorApi) (rt : Runtime) → Policy api → Backoff rt → Retryer api rt
retryer_of api rt (on_func p) bo = on_error_func api rt bo p
retryer_of api rt (on_grpc cs) bo = on_codes api rt cs bo
retryer_of api rt (on_http cs) bo = on_http_codes api rt bo cs

-- The error is one that the function accepts, a gRPC status error with a code of the list, or an
-- error that is or wraps an HTTP error with a code of the list.
abbrev pub Retries : (api : ErrorApi) → Policy api → ErrorApi.Err api → Type 0
Retries api (on_func p) err = p err ≡ true
Retries api (on_grpc cs) err =
    (st : Status api.Other) × (api.from_status err ≡ some st) × IsIn st.code cs
Retries api (on_http cs) err = (h : HttpError) × (api.as_http err ≡ some h) × IsIn h.code cs

module _ (api : ErrorApi) {rt : Runtime} (random : IsRandom rt) (cap : ℕ)
    (room : 30_000_000_000 ≤ cap) where
  retry-on_error_func :
      (p : api.Err → Bool) (bo : Backoff rt) (err : api.Err) (s : rt.Seed)
      → IsValid cap bo
      → Answers api rt
          (retry api rt (on_error_func api rt bo p) err s)
          (p err ≡ true)
          (λ b. on_error_func api rt b p)
          bo
          s
  unfolding retry on_error_func
  retry-on_error_func p bo err s v = elim (Bool-cases (p err)) [
    | inl t ↦
        rw (t, retry) (Answers-retry api random cap room _ (λ b. error_retryer b p) bo s v refl)
    | inr t ↦
        rw (t, retry) (Answers-no api random cap room _ (λ b. error_retryer b p) bo s (λ e. cc))
  ]

  -- With a backoff within range, whose products do not overflow, and under the assumption on the
  -- random source, a retryer of `OnErrorFunc`, `OnCodes` or `OnHTTPCodes` does not panic. It
  -- retries exactly the errors that the function accepts, the gRPC errors whose code is in its
  -- list, or the errors that are or wrap an HTTP error whose code is in its list. It then waits
  -- within the limit of its backoff and moves it on, and otherwise changes nothing.
  pub retry-retryer_of :
      (policy : Policy api) (bo : Backoff rt) (err : api.Err) (s : rt.Seed)
      → IsValid cap bo
      → Answers api rt
          (retry api rt (retryer_of api rt policy bo) err s)
          (Retries api policy err)
          (retryer_of api rt policy)
          bo
          s
  retry-retryer_of (on_func p) bo err s v = retry-on_error_func p bo err s v
  retry-retryer_of (on_grpc cs) bo err s v = retry-on_codes api random cap room cs bo err s v
  retry-retryer_of (on_http cs) bo err s v = retry-on_http_codes api random cap room cs bo err s v
