-- ===== src/Invoke.antt =====
-- v2/invoke.go. The stub, the retryer, `Sleep`, the clock and the recording of metrics are an
-- environment over a state `World`; fuel bounds the number of attempts.
pub mod Loop
pub mod Laws
pub mod Results
pub mod Reported
pub mod Retried
pub mod System
pub mod Progress
pub mod Deferred
pub mod Deadline
pub mod Metrics
pub mod Success
pub mod Trace
use gax_go.Prelude.{
  ℕ, zero, suc, ◌+◌, List, [], ◌∷◌, Option, none, some, Bool, true, false, not, if◌then◌else◌, ◌&&◌,
}
use gax_go.Prelude.Text.{Text, codes, contains, itoa}
use gax_go.Prelude.Int.{ℤ, pos, eq_ℤ}
use gax_go.Backoff.{Duration}
use gax_go.Apierror.Types.{ErrorApi}
use gax_go.Apierror.Parse.{from_error}
use gax_go.CallOption.{CallSettings, CallOption, resolve_all, zero_settings}
use gax_go.Retryer.{Verdict}
use gax_go.Context.{Context, Key, Value, with_value}
use gax_go.Callctx.{with_telemetry_context}
use gax_go.Feature.{Features, is_feature_enabled}

-- What `invoke` calls. `none` as an error is nil; `none` from `retry` is a panic.
pub record Env (api : ErrorApi) : Type 1 where
  pub World : Type 0
  pub Retryer : Type 0
  pub GrpcOption : Type 0
  pub Metrics : Type 0
  -- the APICall
  pub call :
      Context → CallSettings World Retryer GrpcOption Metrics → World → Option api.Err × World
  -- retryer.Retry(err)
  pub retry : Retryer → api.Err → World → Option (Verdict × Retryer × World)
  -- sp(ctx, d)
  pub sleep : Context → Duration → World → Option api.Err × World
  -- time.Now().Add(d)
  pub after : Duration → World → ℤ
  -- the cancel function of a context that context.WithTimeout derived
  pub cancel : Context → World → World
  -- a new TransportTelemetryData, by its address
  pub new_transport_data : World → ℕ × World
  -- recordMetric with the time since the first state
  pub record_metric :
      Context
      → CallSettings World Retryer GrpcOption Metrics
      → World
      → Option api.Err
      → World
      → World

module _ (api : ErrorApi) (env : Env api) where
  open env use {World, Retryer, GrpcOption, Metrics}

  abbrev pub Settings : Type 0
  Settings = CallSettings World Retryer GrpcOption Metrics

  -- The variables of the loop.
  pub record LoopState : Type 0 where
    pub retry_count : ℕ
    pub retryer : Option Retryer
    pub world : World

  -- What one round of the loop does: it returns, panics, or goes round again. A panic has the error
  -- that the variable `err` holds; one in `Retry` leaves the state as it was.
  pub data Step : Type 0 where
    done : Option api.Err → World → Step
    panicked : Option api.Err → World → Step
    again : LoopState → Step

  unfoldable pub with_retry_count : Context → ℕ → Option Context
  with_retry_count ctx retry_count =
      with_telemetry_context ctx (codes "resend_count" ∷ itoa retry_count ∷ [])

  abbrev pub unknown_authority : Text
  unknown_authority = codes "x509: certificate signed by unknown authority"

  -- if apierr, ok := apierror.FromError(err); ok { err = apierr }
  unfoldable pub wrap_error : api.Err → api.Err
  wrap_error err = elim (from_error api (some err)) [ none ↦ err | some a ↦ api.api_err a ]

  -- From the call of `Retry` to the end of the round.
  unfoldable pub ask : Context → ℕ → Retryer → api.Err → World → Step
  ask ctx n r err w = elim (env.retry r err w) [
    | none ↦ panicked (some err) w
    | some (v, r', w') ↦
        if v.should_retry
        then (let (failed, w'') = env.sleep ctx v.pause w' in
            elim failed [
              | some e ↦ done (some e) w''
              | none ↦ again (record { retry_count = n + 1; retryer = some r'; world = w'' })
            ])
        else done (some err) w'
  ]

  -- if retryer == nil { ... }
  unfoldable pub get_retryer :
      Option Retryer → (World → Option Retryer × World) → World → Option Retryer × World
  get_retryer (some r) factory w = (some r, w)
  get_retryer none factory w = factory w

  -- From the failed call to the end of the round.
  unfoldable pub on_error : Context → Settings → ℕ → Option Retryer → api.Err → World → Step
  on_error ctx settings n retryer err w =
      if contains (api.error_text err) unknown_authority
      then done (some err) w
      else (elim settings.retry [
        | none ↦ done (some (wrap_error err)) w
        | some factory ↦
            let (r, w') = get_retryer retryer factory w in
            elim r [
              | none ↦ done (some (wrap_error err)) w'
              | some r' ↦ ask ctx n r' (wrap_error err) w'
            ]
      ])

  -- ctxToUse. The two arguments are a key and a value, so `with_retry_count` does not panic.
  unfoldable pub call_context : Context → Bool → ℕ → Context
  call_context ctx tracing n =
      if tracing then (elim (with_retry_count ctx n) [ none ↦ ctx | some c ↦ c ]) else ctx

  -- One round of the loop.
  unfoldable pub attempt : Context → Settings → Bool → LoopState → Step
  attempt ctx settings tracing s =
      let (err, w) = env.call (call_context ctx tracing s.retry_count) settings s.world in
      elim err [ none ↦ done none w | some e ↦ on_error ctx settings s.retry_count s.retryer e w ]

  pub data Outcome : Type 0 where
    returned : Option api.Err → World → Outcome
    crashed : Option api.Err → World → Outcome

  -- `none` means that the fuel ran out.
  unfoldable pub loop : ℕ → Context → Settings → Bool → LoopState → Option Outcome
  loop zero ctx settings tracing s = none
  loop (suc fuel) ctx settings tracing s = elim (attempt ctx settings tracing s) [
    | done e w ↦ some (returned e w)
    | panicked e w ↦ some (crashed e w)
    | again s' ↦ loop fuel ctx settings tracing s'
  ]

  -- The context's own deadline is kept, and a timeout of 0 is none.
  unfoldable pub derives : Context → Settings → Bool
  derives ctx settings = elim ctx.deadline [
    | some d ↦ false
    | none ↦ not (eq_ℤ settings.timeout (pos 0))
  ]

  unfoldable pub with_timeout : Context → Settings → World → Context
  unfolding derives
  with_timeout ctx settings w =
      if derives ctx settings
      then record ctx { deadline = some (env.after settings.timeout w) }
      else ctx

  abbrev pub start : World → LoopState
  start w = record { retry_count = 0; retryer = none; world = w }

  -- The deferred recordMetric: it sees the error that is returned, or that `err` holds in a panic.
  unfoldable pub finish : Context → Settings → World → Option Outcome → Option Outcome
  finish ctx settings began (some (returned e w)) =
      some (returned e (env.record_metric ctx settings began e w))
  finish ctx settings began (some (crashed e w)) =
      some (crashed e (env.record_metric ctx settings began e w))
  finish ctx settings began none = none

  -- The deferred cc() of a derived context; it runs after the recording.
  unfoldable pub release : Bool → Context → Option Outcome → Option Outcome
  release true ctx (some (returned e w)) = some (returned e (env.cancel ctx w))
  release true ctx (some (crashed e w)) = some (crashed e (env.cancel ctx w))
  release _ ctx o = o

  -- `invoke`, with the environment variables and the cached flags.
  unfoldable pub invoke :
      ℕ → List Text → Features → Context → Settings → World → Option Outcome × Features
  invoke fuel environ f ctx settings w =
      let ctx1 = with_timeout ctx settings w in
      let (metrics, f1) = is_feature_enabled environ f (codes "METRICS") in
      let (tracing, f2) = is_feature_enabled environ f1 (codes "TRACING") in
      if metrics
      then (let (p, w') = env.new_transport_data w in
          let ctx2 = with_value ctx1 Key.transport_telemetry_key (Value.transport_data p) in
          (
            release (derives ctx settings) ctx1
                (finish ctx2 settings w (loop fuel ctx2 settings tracing (start w'))),
            f2,
          ))
      else (release (derives ctx settings) ctx1 (loop fuel ctx1 settings tracing (start w)), f2)

  -- `Invoke`: the options are resolved over zero settings.
  unfoldable pub invoke_with_options :
      ℕ
      → List Text
      → Features
      → Context
      → List (CallOption World Retryer GrpcOption Metrics)
      → World
      → Option Outcome × Features
  invoke_with_options fuel environ f ctx opts w =
      invoke fuel environ f ctx (resolve_all opts zero_settings) w
