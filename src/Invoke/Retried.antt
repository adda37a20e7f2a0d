-- ===== src/Invoke/Retried.antt =====
-- Which errors of the stub a retryer retries, where `invoke` has wrapped them.
use mathlib.Core.Path.{subst}
use gax_go.Prelude.Int.{negsuc}
use gax_go.Prelude.{
  zero, ◌∙◌, ℕ, ◌≤◌, ◌≡◌, ◌↔◌, ◌⊎◌, inl, inr, refl, sym, Option, none, some, true, ◌>>=◌, [],
}
use gax_go.Backoff.{Runtime, IsRandom, Backoff}
use gax_go.Backoff.Bounds.{IsValid}
use gax_go.Apierror.Types.{ErrorApi, ApiError, Status, HttpError}
use gax_go.Apierror.Codes.{to_code}
use gax_go.Apierror.Parse.{from_error, grpc_status, unwrap, http_code}
use gax_go.Apierror.Parse.Laws.{parse_error_cases, parse_error-none}
use gax_go.Retryer.{retry}
use gax_go.Retryer.Laws.{Answers, Answers-iff, IsIn}
use gax_go.Retryer.Policy.{Policy, on_func, on_grpc, on_http, retryer_of, Retries, retry-retryer_of}
use gax_go.Invoke.{Env, wrap_error}
use gax_go.Invoke.Results.{IsStatusMethod}

-- errors.As looks through an *APIError by its method Unwrap.
pub record IsUnwrapMethod (api : ErrorApi) : Type 0 where
  pub as-api_err :
      (a : ApiError (ErrorApi.Err api) (ErrorApi.Other api))
      → api.as_http (api.api_err a) ≡ (unwrap a >>= api.as_http)

-- The error of the stub is one whose wrapper the function accepts; a gRPC status error with a code of
-- the list, or an HTTP error, and no status, whose code `toCode` takes into the list; or an error that
-- is or wraps an HTTP error with a code of the list.
abbrev pub RetriesWrapped :
    (api : ErrorApi) (env : Env api) → Policy api → ErrorApi.Err api → Type 0
RetriesWrapped api env (on_func p) err = p (wrap_error api env err) ≡ true
RetriesWrapped api env (on_grpc cs) err =
    ((st : Status api.Other) × (api.from_status err ≡ some st) × IsIn st.code cs)
    ⊎ ((h : HttpError) × (api.from_status err ≡ none)
        × (api.as_http err ≡ some h)
        × IsIn (to_code h.code) cs)
RetriesWrapped api env (on_http cs) err =
    (h : HttpError) × (api.as_http err ≡ some h) × IsIn h.code cs

module _ (api : ErrorApi) (env : Env api) (method : IsStatusMethod api)
    (unwraps : IsUnwrapMethod api) where
  abbrev bare : HttpError → Status api.Other
  bare h = record { code = to_code h.code; message = h.message; details = [] }

  -- The status that a retryer of `OnCodes` sees.
  abbrev SeenStatus : api.Err → Option (Status api.Other) → Type 0
  SeenStatus err o =
      ((st : Status api.Other) × (api.from_status err ≡ some st) × (o ≡ some st))
      ⊎ ((h : HttpError) × (api.from_status err ≡ none)
          × (api.as_http err ≡ some h)
          × (o ≡ some (bare h)))
      ⊎ ((api.from_status err ≡ none) × (api.as_http err ≡ none) × (o ≡ none))

  seen : (err : api.Err) → SeenStatus err (api.from_status (wrap_error api env err))
  unfolding wrap_error from_error
  seen err = elim (parse_error_cases api err true) [
    | inl (st, e, (a, made, status, _, _, _, _)) ↦
        inl (st, e, rw (made, wrap_error, method.from_api_err a) (unfold grpc_status in status))
    | inr (inl (h, e, f, (a, made, status, _, _, _, _))) ↦
        inr (
          inl
            (h, e, f, rw (made, wrap_error, method.from_api_err a) (unfold grpc_status in status)))
    | inr (inr (e, f, refused)) ↦ inr (inr (e, f, rw (refused, wrap_error) e))
  ]

  as_http-wrap_error : (err : api.Err) → api.as_http (wrap_error api env err) ≡ api.as_http err
  unfolding wrap_error from_error
  as_http-wrap_error err = elim (parse_error_cases api err true) [
    | inl (st, e, (a, made, _, _, _, _, kept)) ↦
        rw (made, wrap_error, unwraps.as-api_err a, kept) refl
    | inr (inl (h, e, f, (a, made, _, _, _, _, kept))) ↦
        rw (made, wrap_error, unwraps.as-api_err a, kept) refl
    | inr (inr (e, f, refused)) ↦ rw (refused, wrap_error) refl
  ]

  Retries-wrap_error :
      (policy : Policy api) (err : api.Err)
      → Retries api policy (wrap_error api env err) ↔ RetriesWrapped api env policy err
  Retries-wrap_error (on_func p) err = ((λ e. e), λ e. e)
  Retries-wrap_error (on_grpc cs) err = elim (seen err) [
    | inl (st, e, at) ↦ (
      λ (st', e', m). inl (st', cc, m),
      λ has. elim has [ inl (st', e', m) ↦ (st', cc, m) | inr (h, e', f', m) ↦ cc ],
    )
    | inr (inl (h, e, f, at)) ↦ (
      λ (st', e', m).
          let same : bare h ≡ st' = cc in
          inr (h, e, f, subst (λ (x : Status api.Other). IsIn x.code cs) (sym same) m),
      λ has. elim has [
        | inl (st', e', m) ↦ cc
        | inr (h', e', f', m) ↦
            let same : h' ≡ h = cc in
            (bare h, at, subst (λ (x : HttpError). IsIn (to_code x.code) cs) same m)
      ],
    )
    | inr (inr (e, f, at)) ↦
        (λ (st', e', m). cc, λ has. elim has [ inl (st', e', m) ↦ cc | inr (h, e', f', m) ↦ cc ])
  ]
  Retries-wrap_error (on_http cs) err = rw (as_http-wrap_error err) ((λ e. e), λ e. e)

  -- What `invoke` makes of an error that another `invoke` has wrapped, where GRPCStatus and Unwrap of a
  -- wrapper give its status and its error. The second wrapper has the status of the first and wraps
  -- the same HTTP error, so that retryers of `OnCodes` and `OnHTTPCodes` decide about both alike; but
  -- its HTTP code is -1, whatever that of the first is.
  pub wrap_error-wrap_error :
      (err : api.Err)
      → let once = wrap_error api env err in
        (api.from_status (wrap_error api env once) ≡ api.from_status once)
        × (api.as_http (wrap_error api env once) ≡ api.as_http err)
        × ((from_error api (some once) ≡ none)
            ⊎ ((a : ApiError api.Err api.Other) × (from_error api (some once) ≡ some a)
                × (http_code a ≡ negsuc zero)))
  unfolding from_error
  wrap_error-wrap_error err =
      let once = wrap_error api env err in
      let http = as_http-wrap_error err in
      elim (seen once) [
        | inl (st, e, at) ↦ (
          at ∙ sym e,
          as_http-wrap_error once ∙ http,
          elim (parse_error_cases api once true) [
            | inl (st', e', (a, made, _, code, _, _, _)) ↦ inr (a, made, code)
            | inr (inl (h, e', f', parsed)) ↦ cc
            | inr (inr (e', f', refused)) ↦ inl refused
          ],
        )
        | inr (inl (h, e, f, at)) ↦ elim (seen err) [
          | inl (st, e', at') ↦ cc
          | inr (inl (h', e', f', at')) ↦ cc
          | inr (inr (e', f', at')) ↦ cc
        ]
        | inr (inr (e, f, at)) ↦ (
          at ∙ sym e,
          as_http-wrap_error once ∙ http,
          inl ((parse_error-none api once true).1 (e, f)),
        )
      ]

  module _ {rt : Runtime} (random : IsRandom rt) (cap : ℕ) (room : 30_000_000_000 ≤ cap) where
    -- A retryer of `OnErrorFunc`, `OnCodes` or `OnHTTPCodes`, with a backoff within range, whose
    -- products do not overflow, and under the assumptions on the random source and on the methods
    -- GRPCStatus and Unwrap, is asked about what `invoke` makes of an error of the stub. It retries
    -- exactly if, in this order, its function accepts the wrapper; the error is a gRPC status error
    -- with a code of the list, or else an HTTP error whose code `toCode` takes into the list; or it
    -- is or wraps an HTTP error with a code of the list. It then waits within its limit, and
    -- otherwise changes nothing.
    pub retry-wrap_error :
        (policy : Policy api) (bo : Backoff rt) (err : api.Err) (s : rt.Seed)
        → IsValid cap bo
        → Answers api rt
            (retry api rt (retryer_of api rt policy bo) (wrap_error api env err) s)
            (RetriesWrapped api env policy err)
            (retryer_of api rt policy)
            bo
            s
    retry-wrap_error policy bo err s valid =
        Answers-iff api rt _ _ _ (retryer_of api rt policy) bo s (Retries-wrap_error policy err)
          (retry-retryer_of api random cap room policy bo (wrap_error api env err) s valid)
