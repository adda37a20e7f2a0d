-- ===== src/Invoke/Trace/Contexts.antt =====
-- The contexts that `invoke` hands to the stub.
use gax_go.Prelude.{ℕ, suc, ◌≡◌, refl, List, [], ◌∷◌, ◌++◌, Option, some, Bool, true, false}
use gax_go.Prelude.Text.{Text}
use gax_go.Apierror.Types.{ErrorApi}
use gax_go.Context.{Context}
use gax_go.Backoff.{Duration}
use gax_go.Feature.{Features}
use gax_go.Invoke.{Env, Settings, Outcome, invoke}
use gax_go.Invoke.Deferred.{outcome_error, outcome_world}
use gax_go.Invoke.Success.{traces, loop_context}
use gax_go.Invoke.Trace.{Event, IsLogged, rounds}
use gax_go.Invoke.Trace.Picked.{context_of, picked, picked-log}
use gax_go.Invoke.Trace.Whole.{invoke-log}
use gax_go.Invoke.Trace.Handed.{AllHanded, call_context-IsHanded}

module _ (api : ErrorApi) (env : Env api) (environ : List Text) (f : Features) (ctx : Context)
    (settings : Settings api env) (w : Env.World env) where
  abbrev c0 : Context
  c0 = loop_context api env environ f ctx settings w

  abbrev tracing : Bool
  tracing = traces api env environ f ctx settings w

  module _ (Report : Type 0) where
    rounds-AllHanded :
        (n : ℕ) (ds : List Duration) (interrupted : Bool)
        → AllHanded api env environ f ctx settings w n
            (picked {Report = Report} context_of (rounds api env c0 tracing n ds interrupted))
    rounds-AllHanded n [] true = tt
    rounds-AllHanded n [] false = (call_context-IsHanded api env environ f ctx settings w n, tt)
    rounds-AllHanded n (d ∷ ds) interrupted = (
      call_context-IsHanded api env environ f ctx settings w n,
      rounds-AllHanded (suc n) ds interrupted,
    )

    module _
        (report : Context
          → Settings api env
          → Env.World env
          → Option (ErrorApi.Err api)
          → Env.World env
          → Option Report)
        (log : Env.World env → List (Event Report)) (logged : IsLogged api env Report report log)
        (quiet : (factory : Env.World env → Option (Env.Retryer env) × Env.World env)
            (w : Env.World env)
          → settings.retry ≡ some factory
          → log (factory w).1 ≡ log w) where
      -- A call of `invoke` that returns or panics has handed to the stub, after n retries, a context with the
      -- deadline of the caller or else the timeout of the settings; with the caller's headers, logger
      -- and foreign values; with new transport data if METRICS is on; and with the caller's telemetry
      -- values, where TRACING sets "resend_count" to n in decimal.
      pub invoke-contexts :
          (fuel : ℕ) (o : Outcome api env)
          → (invoke api env fuel environ f ctx settings w).0 ≡ some o
          → (cs : List Context) × (picked context_of (log (outcome_world api env o))
              ≡ picked context_of (log w) ++ cs)
            × AllHanded api env environ f ctx settings w 0 cs
      invoke-contexts fuel o h =
          let (o0, ds, interrupted, looped, kind, added, _) =
            invoke-log api env report log logged (λ r ds. Unit)
              (record { none_yet = λ r. tt; one_more = λ r r' err w w' v ds a should within. tt })
              environ f ctx settings quiet w fuel o h in
          let calls : List (Event Report) = rounds api env c0 tracing 0 ds interrupted in
          (
            picked context_of calls,
            picked-log context_of (λ r. refl) (λ c. refl) api env environ f ctx settings w
                (report c0 settings w (outcome_error api env o0) (outcome_world api env o0)) (log w)
                calls (log (outcome_world api env o)) added,
            rounds-AllHanded 0 ds interrupted,
          )
