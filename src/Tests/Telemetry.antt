-- ===== src/Tests/Telemetry.antt =====
-- Telemetry.
use native.Mathlib.Omega.{arith}
use gax_go.Prelude.{
  ℕ, ◌≡◌, ◌↔◌, refl, List, [], ◌∷◌, Option, none, some, Bool, true, false, not, if◌then◌else◌,
}
use gax_go.Prelude.Int.{pos}
use gax_go.Prelude.Text.{Text, codes, text_eq}
use gax_go.Prelude.Dict.{get}
use gax_go.Code
use gax_go.Apierror.Details.{Detail, ErrorInfo, parse_details}
use gax_go.Apierror.Types.{Status, HttpError}
use gax_go.Context.{Context}
use gax_go.Callctx.{telemetry_from_context}
use gax_go.Telemetry.{
  TransportTelemetryData, grpc_code_to_status_string, inject_transport_telemetry,
}
use gax_go.Telemetry.Errors.{Inspect, extract_telemetry_error_info}
use gax_go.Telemetry.Laws.{IsNamed, extract_error_type-empty}
use gax_go.Telemetry.Metric.{
  ClientMetrics, Measurement, attributes, duration_histogram, record_metric,
}
use gax_go.Telemetry.Metric.Laws.{IsStatic, Reports, record_metric_lem}
use gax_go.Telemetry.Metric.Values.{transport}
use gax_go.Telemetry.Client.{
  Otel, TelemetryOption, new_client_metrics, resolve_options, zero_options, meter_config,
  default_histogram_boundaries,
}
use gax_go.Telemetry.Client.Laws.{
  last_provider, last_attributes, last_boundaries, or_else, boundaries_or, Carries,
  new_client_metrics_lem,
}
use gax_go.Apierror.Codes.{to_code}
use gax_go.Apierror.Parse.{parse_http_details}
use gax_go.Invoke.{wrap_error}
use gax_go.Invoke.Reported.{extract-wrap_error}
use gax_go.Tests.Setup.{
  TestErr, plain, http, api, api-IsStatusMethod, env, background, unavailable, quota_info,
}

abbrev is_plain : Text → TestErr → Bool
is_plain s (plain t) = text_eq s t
is_plain s _ = false

abbrev inspect : Inspect TestErr
inspect = record {
  is_deadline_exceeded = is_plain (codes "context deadline exceeded");
  is_canceled = is_plain (codes "context canceled");
  context_code = λ e. Code.unknown;
  type_name = λ e. codes "*errors.errorString";
}

inspect-IsNamed : IsNamed inspect
inspect-IsNamed = record { named = λ e. ground arith }

abbrev canceled : Option TestErr
canceled = some (plain (codes "context canceled"))

extract_error_type-empty_example :
    ((extract_telemetry_error_info api inspect canceled (some unavailable)).error_type ≡ [])
    ↔ (some unavailable ≡ none)
extract_error_type-empty_example =
    extract_error_type-empty api inspect canceled (some unavailable) inspect-IsNamed

abbrev gone : HttpError
gone = record { code = pos 410; message = []; body = [] }

abbrev info : ErrorInfo
info = record { reason = codes "QUOTA"; domain = codes "example.com"; metadata = [] }

abbrev denied : Status ℕ
denied = record {
  code = 7;
  message = codes "denied";
  details = Detail.error_info info ∷ Detail.other 3 ∷ [];
}

-- The body gives the reason.
abbrev over_quota : HttpError
over_quota = record { code = pos 429; message = codes "slow down"; body = codes "{}" }

extract-wrap_error_example :
    let raw = extract_telemetry_error_info api inspect none (some (http over_quota)) in
    let seen =
      extract_telemetry_error_info api inspect none (some (wrap_error api env (http over_quota))) in
    (raw.error_type ≡ codes "QUOTA")
    × (raw.domain ≡ codes "example.com")
    × (raw.metadata ≡ [])
    × (seen.error_type ≡ codes "RESOURCE_EXHAUSTED")
    × (seen.status_code ≡ codes "RESOURCE_EXHAUSTED")
    × (seen.domain ≡ [])
    × (seen.metadata ≡ [])
unfolding parse_http_details to_code grpc_code_to_status_string parse_details
extract-wrap_error_example =
    extract-wrap_error api inspect none env api-IsStatusMethod (http over_quota) over_quota
      quota_info b'Q' (codes "UOTA") refl refl refl refl

-- A histogram is the list of its boundaries.
abbrev otel : Otel
otel = record {
  Provider = Bool;
  Histogram = List ℕ;
  Float = ℕ;
  Logger = ℕ;
  get_meter_provider = true;
  float64_histogram = λ p c bs. (if p then some bs else none, not p);
  ten_thousandths = λ n. n;
}

abbrev opts : List (TelemetryOption otel)
opts =
    TelemetryOption.attr_opt
      ((codes "url_domain", codes "example.com") ∷ (codes "client_service", codes "library") ∷ [])
    ∷ TelemetryOption.boundaries_opt (1 ∷ 2 ∷ [])
    ∷ []

abbrev client : Option (ClientMetrics (List ℕ))
client = some (new_client_metrics otel opts)

new_client_metrics_lem_example :
    (duration_histogram client
      ≡ (otel.float64_histogram
          (or_else otel (last_provider otel opts none) true)
          (meter_config otel (resolve_options otel opts (zero_options otel)))
          (boundaries_or otel
            (last_boundaries otel opts [])
            (default_histogram_boundaries otel))).0)
    × ((resolve_options otel opts (zero_options otel)).attributes ≡ last_attributes otel opts [])
    × Carries otel
        (attributes client)
        (get (last_attributes otel opts []) (codes "url_domain"))
        (get (last_attributes otel opts []) (codes "rpc_system"))
new_client_metrics_lem_example = new_client_metrics_lem otel opts

client-IsStatic : IsStatic (attributes client)
client-IsStatic = (new_client_metrics_lem otel opts).2.2

abbrev ctx : Context
ctx = inject_transport_telemetry background 0

abbrev store : List TransportTelemetryData
store =
    record { server_address = codes "10.0.0.1"; server_port = pos 443; http_status_code = pos 0 }
    ∷ []

client_histogram : duration_histogram client ≡ some (1 ∷ 2 ∷ [])
client_histogram = (new_client_metrics_lem otel opts).0

record_metric_lem_example :
    (m : Measurement (List ℕ)) × (record_metric api inspect none store ctx client
        (pos 5)
        (some unavailable)
      ≡ some m)
    × (m.histogram ≡ 1 ∷ 2 ∷ [])
    × (m.duration ≡ pos 5)
    × Reports m.attrs
        (transport store ctx)
        (extract_telemetry_error_info api inspect none (some unavailable))
        (telemetry_from_context ctx (codes "rpc_method"))
        (telemetry_from_context ctx (codes "url_template"))
record_metric_lem_example =
    record_metric_lem api inspect none (some unavailable) store ctx client (pos 5) (1 ∷ 2 ∷ [])
      client_histogram client-IsStatic
