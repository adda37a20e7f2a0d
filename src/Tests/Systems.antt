-- ===== src/Tests/Systems.antt =====
-- `invoke` with the package's own retryers and metrics.
use native.Mathlib.Omega.{arith}
use gax_go.Prelude.{
  suc, ℕ, ◌≡◌, ◌≢◌, refl, sym, ap, inl, List, [], ◌∷◌, Option, none, some, Bool, true, false,
}
use gax_go.Prelude.Int.{pos}
use gax_go.Prelude.Text.{Text, codes, contains, strip_prefix, text_eq}
use gax_go.Code
use gax_go.Apierror.Parse.{from_error}
use gax_go.Context.{Context}
use gax_go.Callctx.{telemetry_from_context}
use gax_go.Feature.{is_feature_enabled, reset}
use gax_go.Backoff.{pause, set_defaults, grow, draw}
use gax_go.Retryer.{Retryer, on_codes, retry}
use gax_go.Telemetry.Errors.{extract_telemetry_error_info}
use gax_go.Telemetry.Metric.{ClientMetrics, Measurement, duration_histogram, attributes}
use gax_go.Telemetry.Metric.Laws.{IsStatic, Reports}
use gax_go.Telemetry.Metric.Values.{transport}
use gax_go.Invoke.{
  Settings, Outcome, returned, done, panicked, again, Step, loop, start, invoke_with_options,
  invoke, attempt, on_error, ask, get_retryer, wrap_error, call_context,
}
use gax_go.Invoke.System.{System, Channel, standard, sleep}
use gax_go.Invoke.Progress.{Runs}
use gax_go.Invoke.Success.{loop_context, loop_world, traces, resolved, invoke-retryer_of}
use gax_go.CallOption.{CallOption, resolve_all, path_opt, retryer_option, timeout_opt}
use gax_go.V1.{v1_sleep}
use gax_go.Invoke.Metrics.{measured, invoke-records}
use gax_go.Retryer.Policy.{Retries}
use gax_go.Tests.Setup.{
  policy, runtime, runtime-IsRandom, backoff, backoff-IsValid, TestErr, api, background,
  unavailable,
}

-- The answers of the stub still to come, the random source, and the measurements
-- and cancellations so far.
record World : Type 0 where
  script : List (Option TestErr)
  seed : ℕ
  measurements : List (Measurement ℕ)
  cancelled : ℕ

abbrev answer : List (Option TestErr) → World → Option TestErr × World
answer [] w = (none, w)
answer (e ∷ script) w = (e, record w { script = script })

abbrev sys : System api runtime
sys = record {
  World = World;
  GrpcOption = ℕ;
  Histogram = ℕ;
  call = λ ctx settings w. answer w.script w;
  wait = λ ctx d w. (Channel.timer_fired, w);
  after = λ d w. d;
  cancel = λ ctx w. record w { cancelled = suc w.cancelled };
  new_transport_data = λ w. (0, w);
  seed = λ w. w.seed;
  set_seed = λ s w. record w { seed = s };
  since = λ began w. pos 3;
  ctx_err = λ ctx w. none;
  transports = λ w. [];
  inspect = record {
    is_deadline_exceeded = λ e. false;
    is_canceled = λ e. false;
    context_code = λ e. Code.unknown;
    type_name = λ e. codes "error";
  };
  emit = λ m w. record w { measurements = m ∷ w.measurements };
}

abbrev settings : Settings api (standard sys)
settings = record {
  retry = some (λ w. (some (on_codes api runtime (14 ∷ []) backoff), w));
  grpc = [];
  path = [];
  timeout = pos 900;
  client_metrics = some (record { get = some (record { duration = some 5; attr = [] }) });
}

abbrev flaky : World
flaky = record { script = some unavailable ∷ none ∷ []; seed = 7; measurements = []; cancelled = 0 }

abbrev left : Step api (standard sys) → List (Option TestErr)
left (done e w) = []
left (panicked e w) = []
left (again s) = s.world.script

abbrev opts : List (CallOption World (Retryer api runtime) ℕ (ClientMetrics ℕ))
opts =
    path_opt (codes "-")
    ∷ retryer_option (some (λ w. (some (on_codes api runtime (14 ∷ []) backoff), w)))
    ∷ timeout_opt (pos 900)
    ∷ []

abbrev environ : List Text
environ = codes "GOOGLE_SDK_GO_EXPERIMENTAL_METRICS=true" ∷ []

abbrev used : Settings api (standard sys)
used = resolved sys runtime-IsRandom 60_000_000_000 (omega arith) policy opts

opts_retry : used.retry ≡ some (λ w. (some (on_codes api runtime (14 ∷ []) backoff), w))
unfolding resolve_all
opts_retry = refl

flaky-Runs :
    Runs api
      (standard sys)
      (loop_context api (standard sys) environ reset background used flaky)
      used
      (traces api (standard sys) environ reset background used flaky)
      (Retries api policy)
      none
      1
      (start api (standard sys) (loop_world api (standard sys) environ reset background used flaky))
unfolding contains strip_prefix text_eq wrap_error from_error attempt on_error ask get_retryer
    call_context retry on_codes pause set_defaults grow draw sleep is_feature_enabled
    gax_go.Prelude.Dict.get reset gax_go.Prelude.Text.cut gax_go.Prelude.Text.lower
    gax_go.Prelude.Dict.put resolve_all
flaky-Runs = (
  unavailable,
  record flaky { script = none ∷ [] },
  refl,
  refl,
  (_, refl, inl refl),
  λ t e.
      let rest : t.world.script ≡ none ∷ [] = sym (ap left e) in
      (record t.world { script = [] }, rw rest refl),
)

invoke-retryer_of_example :
    (w : World) × ((invoke_with_options api (standard sys) 2 environ reset background opts flaky).0
      ≡ some (returned none w))
invoke-retryer_of_example =
    invoke-retryer_of sys runtime-IsRandom 60_000_000_000 (omega arith) policy environ reset
      background opts backoff none 1 flaky opts_retry backoff-IsValid (λ d w. refl) flaky-Runs

-- What `invoke` does with the stub, and the world that it leaves.
abbrev result : Option (Outcome api (standard sys))
result = (invoke api (standard sys) 2 environ reset background settings flaky).0

abbrev world_behind : Option (Outcome api (standard sys)) → World
world_behind (some (returned e w)) = w
world_behind o = flaky

result_returned : result ≡ some (returned none (world_behind result))
unfolding invoke is_feature_enabled gax_go.Prelude.Dict.get reset strip_prefix
    gax_go.Prelude.Text.cut text_eq gax_go.Prelude.Text.lower gax_go.Prelude.Dict.put
    gax_go.Invoke.finish loop attempt on_error contains get_retryer ask retry on_codes from_error
    draw grow pause set_defaults call_context wrap_error sleep gax_go.Invoke.with_timeout
    gax_go.Invoke.derives gax_go.Invoke.release
result_returned = refl

features_on : (is_feature_enabled environ reset (codes "METRICS")).0 ≡ true
unfolding is_feature_enabled gax_go.Prelude.Dict.get reset strip_prefix gax_go.Prelude.Text.cut
    text_eq gax_go.Prelude.Text.lower gax_go.Prelude.Dict.put
features_on = refl

settings-IsStatic : IsStatic (attributes settings.client_metrics)
unfolding attributes
settings-IsStatic = (refl, refl, refl, refl, refl, refl, refl)

settings_histogram : duration_histogram settings.client_metrics ≡ some 5
unfolding duration_histogram
settings_histogram = refl

abbrev c : Context
c = measured sys background settings flaky

abbrev tracing : Bool
tracing =
    (is_feature_enabled environ (is_feature_enabled environ reset (codes "METRICS")).1
      (codes "TRACING")).0

invoke-records_example :
    (w0 : World) × (m : Measurement ℕ) × (loop api
        (standard sys)
        2
        c
        settings
        tracing
        (start api (standard sys) flaky)
      ≡ some (returned none w0))
    × (world_behind result
        ≡ record w0 { measurements = m ∷ w0.measurements; cancelled = suc w0.cancelled })
    × (m.histogram ≡ 5)
    × (m.duration ≡ pos 3)
    × Reports m.attrs
        (transport [] c)
        (extract_telemetry_error_info api (System.inspect sys) none none)
        (telemetry_from_context c (codes "rpc_method"))
        (telemetry_from_context c (codes "url_template"))
unfolding gax_go.Invoke.derives
invoke-records_example =
    invoke-records sys 2 environ reset background settings flaky (world_behind result) none 5
      features_on settings_histogram settings-IsStatic result_returned

v1_sleep_run : v1_sleep sys background (pos 5) flaky ≡ (none, flaky)
unfolding sleep
v1_sleep_run = refl
