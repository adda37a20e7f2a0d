-- ===== src/Invoke/Trace/Standard.antt =====
-- A log of the surroundings of `invoke` with the package's own retryers and metrics.
use gax_go.Prelude.{◌≡◌, refl, sym, ap, ◌∙◌, List, [], ◌∷◌, ◌++◌, append-nil, Option, none, some}
use gax_go.Apierror.Types.{ErrorApi}
use gax_go.Context.{Context}
use gax_go.Backoff.{Duration, Runtime}
use gax_go.Retryer.{Retryer, Retried, Verdict}
use gax_go.Telemetry.Metric.{Measurement, record_metric}
use gax_go.Invoke.{Settings}
use gax_go.Invoke.System.{System, Channel, sleep, standard, put_seed, put_measurement}
use gax_go.Invoke.Trace.{Event, called, slept, recorded, cancelled, reported, IsLogged}

-- The surroundings keep a log: a measurement that is emitted is what the recording reports.
pub record LogsSystem {api : ErrorApi} {rt : Runtime} (sys : System api rt)
    (log : System.World sys → List (Event (Measurement (System.Histogram sys)))) : Type 0 where
  pub log-call :
      (ctx : Context) (settings : Settings api (standard sys)) (w : System.World sys)
      → log (sys.call ctx settings w).1 ≡ log w ++ called ctx ∷ []
  pub log-wait :
      (ctx : Context) (d : Duration) (w : System.World sys)
      → log (sys.wait ctx d w).1 ≡ log w ++ slept ctx d ∷ []
  pub log-set_seed : (s : Runtime.Seed rt) (w : System.World sys) → log (sys.set_seed s w) ≡ log w
  pub log-new_transport_data : (w : System.World sys) → log (sys.new_transport_data w).1 ≡ log w
  pub log-emit :
      (m : Measurement (System.Histogram sys)) (w : System.World sys)
      → log (sys.emit m w) ≡ log w ++ recorded m ∷ []
  pub log-cancel :
      (ctx : Context) (w : System.World sys) → log (sys.cancel ctx w) ≡ log w ++ cancelled ctx ∷ []

module _ {api : ErrorApi} {rt : Runtime} (sys : System api rt) where
  open sys use {World, Histogram}

  -- What recordMetric measures.
  abbrev pub measurement :
      Context
      → Settings api (standard sys)
      → World
      → Option api.Err
      → World
      → Option (Measurement Histogram)
  measurement ctx settings began e w =
      record_metric api sys.inspect (sys.ctx_err ctx w) (sys.transports w) ctx
        settings.client_metrics (sys.since began w) e

  module _ (log : World → List (Event (Measurement Histogram))) (logs : LogsSystem sys log) where
    log-put_seed :
        (o : Option (Retried api rt)) (r' : Retryer api rt) (w w' : World) (v : Verdict)
        → put_seed sys w o ≡ some (v, r', w')
        → log w' ≡ log w
    log-put_seed none r' w w' v e = cc
    log-put_seed (some (v0, r0, s)) r' w w' v e =
        let same : sys.set_seed s w ≡ w' = cc in sym (ap log same) ∙ logs.log-set_seed s w

    log-sleep :
        (ctx : Context) (d : Duration) (w : World)
        → log (sleep sys ctx d w).1 ≡ log w ++ slept ctx d ∷ []
    unfolding sleep
    log-sleep ctx d w = go (sys.wait ctx d w).0 refl
      where
        go :
            (channel : Channel)
            → (sys.wait ctx d w).0 ≡ channel
            → log (sleep sys ctx d w).1 ≡ log w ++ slept ctx d ∷ []
        go Channel.context_done e = rw (e, sleep) (logs.log-wait ctx d w)
        go Channel.timer_fired e = rw (e, sleep) (logs.log-wait ctx d w)

    log-put_measurement :
        (o : Option (Measurement Histogram)) (w : World)
        → log (put_measurement sys o w) ≡ log w ++ reported o
    log-put_measurement none w = sym (append-nil (log w))
    log-put_measurement (some m) w = logs.log-emit m w

    pub standard-IsLogged : IsLogged api (standard sys) (Measurement Histogram) measurement log
    standard-IsLogged = record {
      log-call = logs.log-call;
      log-retry = λ r r' err w w' v e. log-put_seed _ r' w w' v e;
      log-sleep = log-sleep;
      log-new_transport_data = logs.log-new_transport_data;
      log-record_metric = λ ctx settings began w e. log-put_measurement _ w;
      log-cancel = logs.log-cancel;
    }
