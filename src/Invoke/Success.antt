-- ===== src/Invoke/Success.antt =====
-- What `Invoke` returns.
use gax_go.Prelude.{
  ℕ, suc, ◌≡◌, ◌≤◌, refl, List, Option, some, Bool, true, false, if◌then◌else◌, inl, inr,
  Bool-cases,
}
use gax_go.Prelude.Text.{Text, codes}
use gax_go.Apierror.Types.{ErrorApi}
use gax_go.Context.{Context, Key, Value, with_value}
use gax_go.Backoff.{Duration, Runtime, IsRandom, Backoff}
use gax_go.Backoff.Bounds.{IsValid}
use gax_go.CallOption.{CallSettings, CallOption, resolve_all, zero_settings}
use gax_go.Feature.{Features, is_feature_enabled}
use gax_go.Retryer.{Retryer}
use gax_go.Retryer.Policy.{Policy, Retries, retryer_of}
use gax_go.Invoke.{
  Outcome, Env, Settings, returned, loop, with_timeout, derives, finish, release, invoke,
  invoke_with_options, start,
}
use gax_go.Invoke.System.{System, Channel, standard}
use gax_go.Invoke.Progress.{Runs}
use gax_go.Invoke.Progress.Standard.{loop-retryer_of}
use gax_go.Telemetry.Metric.{ClientMetrics}

module _ (api : ErrorApi) (env : Env api) (environ : List Text) (f : Features) (ctx : Context)
    (settings : Settings api env) (w : Env.World env) where
  open env use {World}

  abbrev pub measures : Bool
  measures = (is_feature_enabled environ f (codes "METRICS")).0

  abbrev pub traces : Bool
  traces =
      (is_feature_enabled environ (is_feature_enabled environ f (codes "METRICS")).1
        (codes "TRACING")).0

  -- The context and the state in which the loop starts.
  abbrev pub loop_context : Context
  loop_context =
      let c = with_timeout api env ctx settings w in
      if measures
      then with_value c Key.transport_telemetry_key
          (Value.transport_data (env.new_transport_data w).0)
      else c

  abbrev pub loop_world : World
  loop_world = if measures then (env.new_transport_data w).1 else w

  -- The outcome of the loop.
  abbrev pub LoopOutcome : ℕ → Outcome api env → Type 0
  LoopOutcome fuel o =
      loop api env fuel loop_context settings traces (start api env loop_world) ≡ some o

  release_lem :
      (own : Bool) (c : Context) (e : Option api.Err) (w0 : World)
      → (w' : World) × (release api env own c (some (returned e w0)) ≡ some (returned e w'))
  unfolding release
  release_lem true c e w0 = (env.cancel c w0, refl)
  release_lem false c e w0 = (w0, refl)

  -- What the loop returns is what `invoke` returns.
  pub invoke_of_loop :
      (fuel : ℕ) (e : Option api.Err) (w0 : World)
      → loop api env fuel loop_context settings traces (start api env loop_world)
        ≡ some (returned e w0)
      → (w' : World) × ((invoke api env fuel environ f ctx settings w).0 ≡ some (returned e w'))
  unfolding invoke finish
  invoke_of_loop fuel e w0 h = elim (Bool-cases measures) [
    | inl on ↦ rw (on, rw on at h) (release_lem (derives api env ctx settings) _ e _)
    | inr off ↦ rw (off, rw off at h) (release_lem (derives api env ctx settings) _ e w0)
  ]

module _ {api : ErrorApi} {rt : Runtime} (sys : System api rt) (random : IsRandom rt) (cap : ℕ)
    (room : 30_000_000_000 ≤ cap) (policy : Policy api) where
  open sys use {World}

  -- The options that a caller of `Invoke` gives, resolved.
  abbrev pub resolved :
      List (CallOption World (Retryer api rt) sys.GrpcOption (ClientMetrics sys.Histogram))
      → Settings api (standard sys)
  resolved opts = resolve_all opts zero_settings

  -- `Invoke` returns with n + 1 rounds of its loop as fuel, if its options give a retryer of
  -- `OnErrorFunc`, `OnCodes` or `OnHTTPCodes` with a backoff within range, whose products do not
  -- overflow, no sleep is interrupted, and the stub fails n times, each time with an error that is
  -- not the certificate error and that, once wrapped, the retryer is to retry (one that its
  -- function accepts, or that has a gRPC or HTTP code of its list), and then returns nil, the
  -- certificate error or another error that is not to be retried; under the assumption on the
  -- random source. It returns nil, the certificate error or the wrapper of that other error.
  pub invoke-retryer_of :
      (environ : List Text) (f : Features) (ctx : Context)
      (opts : List (CallOption World (Retryer api rt) sys.GrpcOption (ClientMetrics sys.Histogram)))
      (bo : Backoff rt) (o : Option api.Err) (n : ℕ) (w : World)
      → CallSettings.retry (resolved opts) ≡ some (λ w. (some (retryer_of api rt policy bo), w))
      → IsValid cap bo
      → ((d : Duration) (at_ : World)
          → (sys.wait (loop_context api (standard sys) environ f ctx (resolved opts) w) d at_).0
            ≡ Channel.timer_fired)
      → Runs api
          (standard sys)
          (loop_context api (standard sys) environ f ctx (resolved opts) w)
          (resolved opts)
          (traces api (standard sys) environ f ctx (resolved opts) w)
          (Retries api policy)
          o
          n
          (start api (standard sys) (loop_world api (standard sys) environ f ctx (resolved opts) w))
      → (w' : World) × ((invoke_with_options api (standard sys) (suc n) environ f ctx opts w).0
          ≡ some (returned o w'))
  unfolding invoke_with_options
  invoke-retryer_of environ f ctx opts bo o n w given valid calm runs =
      let (w0, looped) =
        loop-retryer_of sys random cap room policy
          (loop_context api (standard sys) environ f ctx (resolved opts) w) (resolved opts)
          (traces api (standard sys) environ f ctx (resolved opts) w) bo o n
          (loop_world api (standard sys) environ f ctx (resolved opts) w) given valid calm runs in
      invoke_of_loop api (standard sys) environ f ctx (resolved opts) w (suc n) o w0 looped
