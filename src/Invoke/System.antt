-- ===== src/Invoke/System.antt =====
-- `invoke` with the retryers of v2/call_option.go and the `recordMetric` of v2/telemetry.go. What is
-- left open are the stub, the timer, the clock, the cancellation, the transports and OpenTelemetry.
use gax_go.Prelude.{ℕ, List, Option, none, some}
use gax_go.Prelude.Int.{ℤ}
use gax_go.Backoff.{Duration, Runtime}
use gax_go.Apierror.Types.{ErrorApi}
use gax_go.Context.{Context}
use gax_go.CallOption.{CallSettings}
use gax_go.Retryer.{Retryer, Verdict, Retried, retry}
use gax_go.Telemetry.{TransportTelemetryData}
use gax_go.Telemetry.Errors.{Inspect}
use gax_go.Telemetry.Metric.{ClientMetrics, Measurement, record_metric}
use gax_go.Invoke.{Env}

-- ctx.Done() and t.C
pub data Channel : Type 0 where
  context_done timer_fired : Channel

pub record System (api : ErrorApi) (rt : Runtime) : Type 1 where
  pub World : Type 0
  pub GrpcOption : Type 0
  pub Histogram : Type 0
  -- the APICall
  pub call :
      Context
      → CallSettings World (Retryer api rt) GrpcOption (ClientMetrics Histogram)
      → World
      → Option (ErrorApi.Err api) × World
  -- the channel that the select statement of `Sleep` takes
  pub wait : Context → Duration → World → Channel × World
  pub after : Duration → World → ℤ
  pub cancel : Context → World → World
  pub new_transport_data : World → ℕ × World
  -- the state of package math/rand
  pub seed : World → Runtime.Seed rt
  pub set_seed : Runtime.Seed rt → World → World
  -- time.Since(start), with the states at the start and now
  pub since : World → World → Duration
  -- ctx.Err()
  pub ctx_err : Context → World → Option (ErrorApi.Err api)
  pub transports : World → List TransportTelemetryData
  pub inspect : Inspect (ErrorApi.Err api)
  -- a call of Record
  pub emit : Measurement Histogram → World → World

module _ {api : ErrorApi} {rt : Runtime} (sys : System api rt) where
  open sys use {World, Histogram}

  -- If interrupted, `Sleep` returns ctx.Err().
  unfoldable pub sleep : Context → Duration → World → Option api.Err × World
  sleep ctx d w =
      let (channel, w1) = sys.wait ctx d w in
      elim channel [ context_done ↦ (sys.ctx_err ctx w1, w1) | timer_fired ↦ (none, w1) ]

  -- The random source that `Retry` leaves.
  abbrev pub put_seed : World → Option (Retried api rt) → Option (Verdict × Retryer api rt × World)
  put_seed w none = none
  put_seed w (some (v, r, s)) = some (v, r, sys.set_seed s w)

  abbrev pub put_measurement : Option (Measurement Histogram) → World → World
  put_measurement none w = w
  put_measurement (some m) w = sys.emit m w

  abbrev pub standard : Env api
  standard = record {
    World = World;
    Retryer = Retryer api rt;
    GrpcOption = sys.GrpcOption;
    Metrics = ClientMetrics Histogram;
    call = sys.call;
    retry = λ r err w. put_seed w (retry api rt r err (sys.seed w));
    sleep = sleep;
    after = sys.after;
    cancel = sys.cancel;
    new_transport_data = sys.new_transport_data;
    record_metric = λ ctx settings began err w.
        put_measurement
          (record_metric api sys.inspect (sys.ctx_err ctx w) (sys.transports w) ctx
            settings.client_metrics (sys.since began w) err)
          w;
  }
