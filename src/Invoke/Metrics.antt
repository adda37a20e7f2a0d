-- ===== src/Invoke/Metrics.antt =====
-- What `invoke` records of a call.
use gax_go.Prelude.{ℕ, ◌≡◌, ap, ◌∙◌, List, Option, some, true, if◌then◌else◌}
use gax_go.Prelude.Text.{Text, codes}
use gax_go.Apierror.Types.{ErrorApi}
use gax_go.Context.{Context, Key, Value, with_value}
use gax_go.Callctx.{telemetry_from_context}
use gax_go.Backoff.{Runtime}
use gax_go.Feature.{Features, is_feature_enabled}
use gax_go.Telemetry.Errors.{extract_telemetry_error_info}
use gax_go.Telemetry.Metric.{Measurement, attributes, duration_histogram}
use gax_go.Telemetry.Metric.Laws.{IsStatic, Reports, record_metric_lem}
use gax_go.Telemetry.Metric.Values.{transport}
use gax_go.Invoke.{Settings, returned, loop, with_timeout, derives, invoke, start}
use gax_go.Invoke.Deferred.{finish-returned, release-returned}
use gax_go.Invoke.System.{System, standard, put_measurement}

module _ {api : ErrorApi} {rt : Runtime} (sys : System api rt) where
  open sys use {World, Histogram}

  -- The context of a measured call: the deadline is settled, and the transport's data are in it.
  abbrev pub measured : Context → Settings api (standard sys) → World → Context
  measured ctx settings w =
      with_value (with_timeout api (standard sys) ctx settings w) Key.transport_telemetry_key
        (Value.transport_data (sys.new_transport_data w).0)

  -- The context that cc() cancels, and the world behind the deferred cc(), if there is one.
  abbrev pub released : Context → Settings api (standard sys) → World → World → World
  released ctx settings w w1 =
      if derives api (standard sys) ctx settings
      then sys.cancel (with_timeout api (standard sys) ctx settings w) w1
      else w1

  -- With METRICS on and a histogram, a call of `invoke` that returns makes one measurement, after
  -- its loop and before a context that it has derived is cancelled. It says what the transport has
  -- left by then, and describes the error that is returned, with the method and the template of
  -- the context; given that the client's own attributes have other keys.
  pub invoke-records :
      (fuel : ℕ) (environ : List Text) (f : Features) (ctx : Context)
      (settings : Settings api (standard sys)) (w w' : World) (e : Option api.Err) (h : Histogram)
      → (is_feature_enabled environ f (codes "METRICS")).0 ≡ true
      → duration_histogram settings.client_metrics ≡ some h
      → IsStatic (attributes settings.client_metrics)
      → (invoke api (standard sys) fuel environ f ctx settings w).0 ≡ some (returned e w')
      → let c = measured ctx settings w in
        let f1 = (is_feature_enabled environ f (codes "METRICS")).1 in
        let tracing = (is_feature_enabled environ f1 (codes "TRACING")).0 in
        (w0 : World) × (m : Measurement Histogram) × (loop api
            (standard sys)
            fuel
            c
            settings
            tracing
            (start api (standard sys) (sys.new_transport_data w).1)
          ≡ some (returned e w0))
        × (w' ≡ released ctx settings w (sys.emit m w0))
        × (m.histogram ≡ h)
        × (m.duration ≡ sys.since w w0)
        × Reports m.attrs
            (transport (sys.transports w0) c)
            (extract_telemetry_error_info api sys.inspect (sys.ctx_err c w0) e)
            (telemetry_from_context c (codes "rpc_method"))
            (telemetry_from_context c (codes "url_template"))
  unfolding invoke
  invoke-records fuel environ f ctx settings w w' e h on hist static result =
      let c = measured ctx settings w in
      let (w1, finished, freed) =
        release-returned api (standard sys) (derives api (standard sys) ctx settings) _ _ e w'
          (rw on at result) in
      let (w0, looped, recorded) =
        finish-returned api (standard sys) c settings w _ e w1 finished in
      let (m, made, histogram, duration, reports) =
        record_metric_lem api sys.inspect (sys.ctx_err c w0) e (sys.transports w0) c
          settings.client_metrics (sys.since w w0) h hist static in
      (
        w0,
        m,
        looped,
        freed ∙ ap (released ctx settings w) (recorded ∙ ap (λ o. put_measurement sys o w0) made),
        histogram,
        duration,
        reports,
      )
