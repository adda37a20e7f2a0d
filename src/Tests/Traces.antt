-- ===== src/Tests/Traces.antt =====
-- A call of `invoke` and the log of what it does.
use native.Mathlib.Omega.{arith}
use gax_go.Prelude.{
  ℕ, ◌*◌, ◌^◌, min, ◌≡◌, refl, sym, ap, List, [], ◌∷◌, ◌++◌, Option, none, some, Bool, true, false,
}
use gax_go.Prelude.Int.{pos, negsuc}
use gax_go.Prelude.Text.{Text, codes, contains, strip_prefix, text_eq}
use gax_go.Code
use gax_go.Apierror.Parse.{from_error}
use gax_go.Context.{Context}
use gax_go.Feature.{is_feature_enabled, reset}
use gax_go.Backoff.{Duration, pause, set_defaults, grow, draw}
use gax_go.Backoff.Bounds.{IsWithin}
use gax_go.Retryer.{on_codes, retry}
use gax_go.Telemetry.Metric.{Measurement}
use gax_go.Invoke.{
  Settings, Outcome, returned, crashed, done, panicked, again, Step, loop, start, invoke, attempt,
  on_error, ask, get_retryer, wrap_error, call_context,
}
use gax_go.Invoke.System.{System, Channel, standard, sleep}
use gax_go.Invoke.Deferred.{outcome_error, outcome_world, put_world}
use gax_go.Invoke.Success.{LoopOutcome, loop_context, traces}
use gax_go.Invoke.Trace.{Event, called, slept, recorded, cancelled, rounds, deferred}
use gax_go.Invoke.Trace.Standard.{LogsSystem, measurement, standard-IsLogged}
use gax_go.Invoke.Trace.Handed.{AllHanded}
use gax_go.Invoke.Trace.Picked.{picked, context_of, delay_of}
use gax_go.Invoke.Trace.Envelope.{IsUnder, invoke-envelope}
use gax_go.Invoke.Trace.Contexts.{invoke-contexts}
use gax_go.Invoke.Trace.Pauses.{quiet, invoke-pauses}
use gax_go.Tests.Setup.{
  policy, runtime, runtime-IsRandom, runtime-IsFactor, backoff, backoff-IsValid, TestErr, api,
  background, unavailable,
}

-- The answers of the stub still to come, the random source, and the events so far.
record World : Type 0 where
  script : List (Option TestErr)
  seed : ℕ
  events : List (Event (Measurement ℕ))

abbrev answer : List (Option TestErr) → World → Option TestErr × World
answer [] w = (none, w)
answer (e ∷ script) w = (e, record w { script = script })

abbrev append : World → Event (Measurement ℕ) → World
append w e = record w { events = w.events ++ e ∷ [] }

abbrev sys : System api runtime
sys = record {
  World = World;
  GrpcOption = ℕ;
  Histogram = ℕ;
  call = λ ctx settings w. answer w.script (append w (called ctx));
  wait = λ ctx d w. (Channel.timer_fired, append w (slept ctx d));
  after = λ d w. d;
  cancel = λ ctx w. append w (cancelled ctx);
  new_transport_data = λ w. (0, w);
  seed = λ w. w.seed;
  set_seed = λ s w. record w { seed = s };
  since = λ began w. pos 3;
  ctx_err = λ ctx w. none;
  transports = λ w. [];
  inspect = record {
    is_deadline_exceeded = λ e. false;
    is_canceled = λ e. false;
    context_code = λ e. Code.unknown;
    type_name = λ e. codes "error";
  };
  emit = λ m w. append w (recorded m);
}

answer-events : (script : List (Option TestErr)) (w : World) → (answer script w).1.events ≡ w.events
answer-events [] w = refl
answer-events (e ∷ script) w = refl

sys-logs : LogsSystem sys (λ w. w.events)
sys-logs = record {
  log-call = λ ctx settings w. answer-events w.script (append w (called ctx));
  log-wait = λ ctx d w. refl;
  log-set_seed = λ s w. refl;
  log-new_transport_data = λ w. refl;
  log-emit = λ m w. refl;
  log-cancel = λ ctx w. refl;
}

abbrev settings : Settings api (standard sys)
settings = record {
  retry = some (λ w. (some (on_codes api runtime (14 ∷ []) backoff), w));
  grpc = [];
  path = [];
  timeout = pos 900;
  client_metrics = some (record { get = some (record { duration = some 5; attr = [] }) });
}

abbrev flaky : World
flaky = record { script = some unavailable ∷ none ∷ []; seed = 7; events = [] }

abbrev environ : List Text
environ = codes "GOOGLE_SDK_GO_EXPERIMENTAL_METRICS=true" ∷ []

abbrev result : Option (Outcome api (standard sys))
result = (invoke api (standard sys) 2 environ reset background settings flaky).0

abbrev world_behind : Option (Outcome api (standard sys)) → World
world_behind (some (returned e w)) = w
world_behind o = flaky

abbrev w_end : World
w_end = world_behind result

result_returned : result ≡ some (returned none w_end)
unfolding invoke is_feature_enabled gax_go.Prelude.Dict.get reset strip_prefix
    gax_go.Prelude.Text.cut text_eq gax_go.Prelude.Text.lower gax_go.Prelude.Dict.put
    gax_go.Invoke.finish loop attempt on_error contains get_retryer ask retry on_codes from_error
    draw grow pause set_defaults call_context wrap_error sleep gax_go.Invoke.with_timeout
    gax_go.Invoke.derives gax_go.Invoke.release
result_returned = refl

abbrev c : Context
c = loop_context api (standard sys) environ reset background settings flaky

abbrev tracing : Bool
tracing = traces api (standard sys) environ reset background settings flaky

abbrev o_end : Outcome api (standard sys)
o_end = returned none w_end

-- What the log has at the end, with delays as `Delays` tells.
abbrev Logged : (List Duration → Type 0) → Type 0
Logged Delays =
    (o0 : Outcome api (standard sys)) × (ds : List Duration) × (interrupted : Bool) × LoopOutcome
      api (standard sys) environ reset background settings flaky 2 o0
    × (o_end ≡ put_world api (standard sys) w_end o0)
    × (w_end.events
        ≡ rounds api (standard sys) c tracing 0 ds interrupted
          ++ deferred api (standard sys) environ reset background settings flaky (
              measurement sys c settings flaky (outcome_error api (standard sys) o0)
                (outcome_world api (standard sys) o0)))
    × Delays ds

invoke-pauses_example : Logged (IsWithin backoff)
invoke-pauses_example =
    invoke-pauses sys runtime-IsRandom 60_000_000_000 (omega arith) policy (λ w. w.events) sys-logs
      environ reset background settings backoff refl backoff-IsValid flaky 2 o_end result_returned

invoke-contexts_example :
    (cs : List Context) × (picked context_of w_end.events ≡ cs)
    × AllHanded api (standard sys) environ reset background settings flaky 0 cs
invoke-contexts_example =
    invoke-contexts api (standard sys) environ reset background settings flaky (Measurement ℕ)
      (measurement sys) (λ w. w.events) (standard-IsLogged sys (λ w. w.events) sys-logs)
      (quiet sys runtime-IsRandom 60_000_000_000 (omega arith) policy (λ w. w.events) sys-logs
        environ reset background settings backoff refl backoff-IsValid flaky)
      2 o_end result_returned

invoke-envelope_example :
    (ds : List Duration) × (picked delay_of w_end.events ≡ ds)
    × IsUnder (λ n. min (100 * 3 ^ n) 1000) 0 ds
invoke-envelope_example =
    invoke-envelope sys runtime-IsRandom 60_000_000_000 (omega arith) policy (λ w. w.events)
      sys-logs environ reset background settings backoff refl backoff-IsValid flaky 3 3 999 99
      runtime-IsFactor (omega arith) (omega arith) refl refl refl refl 2 o_end result_returned

-- A negative Initial makes the retryer panic; the measurement and the cancellation are made.
abbrev hasty : Settings api (standard sys)
hasty = record settings {
  retry =
      some
        (λ w. (some (on_codes api runtime (14 ∷ []) (record backoff { initial = negsuc 0 })), w));
}

abbrev marks : List (Event (Measurement ℕ)) → List ℕ
marks [] = []
marks (called c ∷ log) = 0 ∷ marks log
marks (slept c d ∷ log) = 1 ∷ marks log
marks (recorded m ∷ log) = 2 ∷ marks log
marks (cancelled c ∷ log) = 3 ∷ marks log

abbrev crash : Option (Outcome api (standard sys)) → Option (List ℕ)
crash (some (crashed e w)) = some (marks w.events)
crash o = none

crash_marks :
    crash (invoke api (standard sys) 2 environ reset background hasty flaky).0
    ≡ some (0 ∷ 2 ∷ 3 ∷ [])
unfolding invoke is_feature_enabled gax_go.Prelude.Dict.get reset strip_prefix
    gax_go.Prelude.Text.cut text_eq gax_go.Prelude.Text.lower gax_go.Prelude.Dict.put
    gax_go.Invoke.finish loop attempt on_error contains get_retryer ask retry on_codes from_error
    draw grow pause set_defaults call_context wrap_error sleep gax_go.Invoke.with_timeout
    gax_go.Invoke.derives gax_go.Invoke.release gax_go.Telemetry.Metric.record_metric
    gax_go.Telemetry.Metric.duration_histogram
crash_marks = refl
