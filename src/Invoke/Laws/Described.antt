-- ===== src/Invoke/Laws/Described.antt =====
-- A round of the loop, with what it takes for the retryer at hand and for the wrapped error.
use gax_go.Prelude.{
  ◌≡◌, ◌↔◌, ◌⊎◌, inl, inr, refl, Option, none, some, Bool, [], arith, Option-cases,
}
use gax_go.Apierror.Codes.{to_code}
use gax_go.Apierror.Details.{ErrDetails, parse_details}
use gax_go.Apierror.Types.{ErrorApi, Status, HttpError}
use gax_go.Apierror.Parse.{from_error, parse_error, parse_http_details}
use gax_go.Context.{Context}
use gax_go.Invoke.{Env, Settings, LoopState, Step, attempt, get_retryer, wrap_error}
use gax_go.Invoke.Laws.Attempt.{Round, attempt-Round}

module _ (api : ErrorApi) (env : Env api) where
  open env use {World, Retryer}

  -- The retryer of the state is kept; where there is none, the factory is asked.
  abbrev pub Gets :
      Option Retryer → (World → Option Retryer × World) → World → Option Retryer × World → Type 0
  Gets (some r) factory w p = p ≡ (some r, w)
  Gets none factory w p = p ≡ factory w

  -- An error that has become an APIError around the original, with a status, an HTTP error or none,
  -- and details.
  abbrev pub Becomes :
      api.Err → api.Err → Status api.Other → Option HttpError → ErrDetails api.Other → Type 0
  Becomes err err' st h details =
      err'
      ≡ api.api_err (record { err = some err; status = some st; http_err = h; details = details })

  -- A gRPC status error is wrapped with its status and details, and another error that is or wraps an
  -- HTTP error with that error, its details, and a status of its code; any other error stays as it is.
  abbrev pub Wraps : api.Err → api.Err → Type 0
  Wraps err err' =
      ((st : Status api.Other) × (api.from_status err ≡ some st)
        × Becomes err err' st none (parse_details st.details))
      ⊎ ((h : HttpError) × (api.from_status err ≡ none)
          × (api.as_http err ≡ some h)
          × Becomes err err' (record { code = to_code h.code; message = h.message; details = [] })
              (some h) (parse_http_details api h))
      ⊎ ((api.from_status err ≡ none) × (api.as_http err ≡ none) × (err' ≡ err))

  wrap_error-Wraps : (err : api.Err) → Wraps err (wrap_error api env err)
  unfolding wrap_error from_error parse_error
  wrap_error-Wraps err = elim (Option-cases (api.from_status err)) [
    | inr (st, e) ↦ inl (st, e, ground arith)
    | inl e ↦ elim (Option-cases (api.as_http err)) [
      | inr (h, f) ↦ inr (inl (h, e, f, ground arith))
      | inl f ↦ inr (inr (e, f, ground arith))
    ]
  ]

  get_retryer-Gets :
      (o : Option Retryer) (factory : World → Option Retryer × World) (w : World)
      → Gets o factory w (get_retryer api env o factory w)
  unfolding get_retryer
  get_retryer-Gets none factory w = refl
  get_retryer-Gets (some r) factory w = refl

  -- One round of the loop does exactly what one of eight cases of the relation allows: success; the
  -- certificate error, returned as it is; no factory; no retryer; a refusal, which returns the wrapped
  -- error; a panic of the retryer; an interrupted sleep; or another round. The retryer that is asked is
  -- the one that the state keeps, or else a new one. The wrapped error is an APIError around a gRPC
  -- status error or, if it is none, an HTTP error, with its status and details, and any other error as
  -- it is.
  pub attempt_lem :
      (ctx : Context) (settings : Settings api env) (tracing : Bool) (s : LoopState api env)
      (p : Step api env)
      → ((attempt api env ctx settings tracing s ≡ p) ↔ Round api env ctx settings tracing s p)
        × ((factory : World → Option Retryer × World) (w : World)
            → Gets s.retryer factory w (get_retryer api env s.retryer factory w))
        × ((err : api.Err) → Wraps err (wrap_error api env err))
  attempt_lem ctx settings tracing s p =
      (attempt-Round api env ctx settings tracing s p, get_retryer-Gets s.retryer, wrap_error-Wraps)
