-- ===== src/Invoke/Results.antt =====
-- What the errors that `invoke` returns are.
use gax_go.Prelude.{ℕ, zero, suc, ◌<◌, ◌≡◌, refl, ap, Option, none, some, arith, true, Bool, []}
use gax_go.Apierror.Types.{ErrorApi, ApiError, HttpError}
use gax_go.Apierror.Codes.{to_code}
use gax_go.Apierror.Parse.{from_error, grpc_status}
use gax_go.Apierror.Parse.Laws.{parse_error_http}
use gax_go.Context.{Context}
use gax_go.Invoke.{
  Env, Settings, LoopState, Step, done, panicked, again, returned, attempt, loop, wrap_error,
}
use gax_go.Invoke.Loop.{Rounds, final, loop_iff}
use gax_go.Invoke.Laws.Attempt.{
  attempt-Round, Round, Calls, succeeds, untrusted, no_factory, no_retryer, retry_panics, refused,
  interrupted, retries,
}

-- status.FromError gives the status of an *APIError by its method GRPCStatus.
pub record IsStatusMethod (api : ErrorApi) : Type 0 where
  pub from_api_err :
      (a : ApiError (ErrorApi.Err api) (ErrorApi.Other api))
      → api.from_status (api.api_err a) ≡ a.status

module _ (api : ErrorApi) (env : Env api) (ctx : Context) (settings : Settings api env)
    (tracing : Bool) where
  final-none :
      (p : Step api env) (w : env.World)
      → final api env ctx settings tracing p ≡ some (returned none w)
      → p ≡ done none w
  final-none (done e w') w h = ground arith
  final-none (panicked e w') w h = ground arith
  final-none (again s) w h = ground arith

  Round-none :
      (s : LoopState api env) (p : Step api env) (w : env.World)
      → Round api env ctx settings tracing s p
      → p ≡ done none w
      → Calls api env ctx settings tracing s none w
  Round-none s p w (succeeds w' c) q = ground arith
  Round-none s p w (untrusted e w' c bad) q = ground arith
  Round-none s p w (no_factory e w' c safe f) q = ground arith
  Round-none s p w (no_retryer e w' w1 factory k) q = ground arith
  Round-none s p w (retry_panics e w' w1 factory r k a) q = ground arith
  Round-none s p w (refused e w' w1 w2 factory r r' v k a b) q = ground arith
  Round-none s p w (interrupted e e' w' w1 w2 w3 factory r r' v k a b d) q = ground arith
  Round-none s p w (retries e w' w1 w2 w3 factory r r' v k a b d) q = ground arith

  -- If the loop returns nil, the call of its last round returned nil, and the state is the one
  -- that this call left.
  loop_nil :
      (fuel : ℕ) (s : LoopState api env) (w : env.World)
      → loop api env fuel ctx settings tracing s ≡ some (returned none w)
      → (n : ℕ) × (t : LoopState api env) × (n < fuel)
        × Rounds api env ctx settings tracing n s t
        × Calls api env ctx settings tracing t none w
  loop_nil fuel s w h =
      let (n, t, lt, rounds, e) =
        (loop_iff api env ctx settings tracing fuel s (returned none w)).0 h in
      let r = (attempt-Round api env ctx settings tracing t (done none w)).0 (final-none _ w e) in
      (n, t, lt, rounds, Round-none t (done none w) w r refl)

  Round-final :
      (s : LoopState api env) (p : Step api env)
      → settings.retry ≡ none
      → Round api env ctx settings tracing s p
      → (e : Option api.Err) × (w : env.World) × (p ≡ done e w)
  Round-final s p h (succeeds w c) = (none, w, refl)
  Round-final s p h (untrusted e w c bad) = (some e, w, refl)
  Round-final s p h (no_factory e w c safe f) = (some (wrap_error api env e), w, refl)
  Round-final s p h (no_retryer e w w1 factory (_, _, f, _)) = cc
  Round-final s p h (retry_panics e w w1 factory r (_, _, f, _) a) = cc
  Round-final s p h (refused e w w1 w2 factory r r' v (_, _, f, _) a b) = cc
  Round-final s p h (interrupted e e' w w1 w2 w3 factory r r' v (_, _, f, _) a b d) = cc
  Round-final s p h (retries e w w1 w2 w3 factory r r' v (_, _, f, _) a b d) = cc

  -- Without a `Retry` in the settings one round is enough: the loop returns after one call.
  loop_no_retry :
      (fuel : ℕ) (s : LoopState api env)
      → settings.retry ≡ none
      → (e : Option api.Err) × (w : env.World) × (attempt api env ctx settings tracing s ≡ done e w)
        × (loop api env (suc fuel) ctx settings tracing s ≡ some (returned e w))
  loop_no_retry fuel s h =
      let here = attempt api env ctx settings tracing s in
      let (e, w, q) =
        Round-final s here h ((attempt-Round api env ctx settings tracing s here).0 refl) in
      (
        e,
        w,
        q,
        (loop_iff api env ctx settings tracing (suc fuel) s (returned e w)).1
            (zero, s, omega arith, refl, ap (final api env ctx settings tracing) q),
      )

module _ (api : ErrorApi) (env : Env api) (method : IsStatusMethod api) where
  -- The wrapper of an error that is an HTTP error and no status has the status of its code.
  pub status_of_wrapped :
      (err : api.Err) (h : HttpError)
      → api.from_status err ≡ none
      → api.as_http err ≡ some h
      → api.from_status (wrap_error api env err)
        ≡ some (record { code = to_code h.code; message = h.message; details = [] })
  unfolding wrap_error from_error
  status_of_wrapped err h e f =
      let (a, made, st, _, _, _, _) = parse_error_http api err true h e f in
      rw (made, wrap_error, method.from_api_err a) (unfold grpc_status in st)
