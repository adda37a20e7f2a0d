-- ===== src/Telemetry/Metric.antt =====
-- `recordMetric` of v2/telemetry.go, and the attributes that it adds.
pub mod Values
pub mod Laws
use gax_go.Prelude.{ℕ, List, [], ◌∷◌, ◌++◌, Option, none, some, Bool, if◌then◌else◌}
use gax_go.Prelude.Text.{Text, codes}
use gax_go.Prelude.Int.{ℤ, pos, eq_ℤ}
use gax_go.Context.{Context}
use gax_go.Callctx.{telemetry_from_context}
use gax_go.Backoff.{Duration}
use gax_go.Apierror.Types.{ErrorApi}
use gax_go.Telemetry.{TransportTelemetryData, extract_transport_telemetry, read_data}
use gax_go.Telemetry.Errors.{Inspect, TelemetryErrorInfo, extract_telemetry_error_info}

-- An attribute.KeyValue of the kinds that the program uses.
pub data AttrValue : Type 0 where
  string_value : Text → AttrValue
  int_value : ℤ → AttrValue

abbrev pub Attribute : Type 0
Attribute = Text × AttrValue

-- A nil histogram is `none`.
pub record ClientMetricsData (Histogram : Type 0) : Type 0 where
  pub duration : Option Histogram
  pub attr : List Attribute

-- `get` computes its data once; a nil `get` is `none`.
pub record ClientMetrics (Histogram : Type 0) : Type 0 where
  pub get : Option (ClientMetricsData Histogram)

-- One call of Record, with the duration before it becomes a number of seconds.
pub record Measurement (Histogram : Type 0) : Type 0 where
  pub histogram : Histogram
  pub context : Context
  pub duration : Duration
  pub attrs : List Attribute

-- context.WithoutCancel: the values stay.
abbrev pub without_cancel : Context → Context
without_cancel ctx = record ctx { deadline = none }

-- An attribute that is left out where it is empty.
unfoldable pub append_text : List Attribute → Text → Text → List Attribute
append_text attrs key [] = attrs
append_text attrs key (c ∷ s) = attrs ++ (key, AttrValue.string_value (c ∷ s)) ∷ []

-- An attribute that is left out where it is 0.
unfoldable pub append_int : List Attribute → Text → ℤ → List Attribute
append_int attrs key n =
    if eq_ℤ n (pos 0) then attrs else attrs ++ (key, AttrValue.int_value n) ∷ []

-- Where the context has no such text, the attribute is left out.
unfoldable pub append_telemetry : Context → List Attribute → Text → Text → List Attribute
append_telemetry ctx attrs key name = elim (telemetry_from_context ctx name) [
  | none ↦ attrs
  | some s ↦ append_text attrs key s
]

unfoldable pub append_transport :
    List TransportTelemetryData → Context → List Attribute → List Attribute
append_transport store ctx attrs = elim (extract_transport_telemetry ctx) [
  | none ↦ attrs
  | some p ↦
      let td = read_data store p in
      let attrs1 = append_text attrs (codes "server.address") td.server_address in
      let attrs2 = append_int attrs1 (codes "server.port") td.server_port in
      append_int attrs2 (codes "http.response.status_code") td.http_status_code
]

module _ {Histogram : Type 0} where
  unfoldable pub duration_histogram : Option (ClientMetrics Histogram) → Option Histogram
  duration_histogram none = none
  duration_histogram (some cm) = elim cm.get [ none ↦ none | some d ↦ d.duration ]

  unfoldable pub attributes : Option (ClientMetrics Histogram) → List Attribute
  attributes none = []
  attributes (some cm) = elim cm.get [ none ↦ [] | some d ↦ d.attr ]

  -- The attributes of a measurement. `err` is described by `info`.
  unfoldable pub all_attributes :
      Option (ClientMetrics Histogram)
      → List TransportTelemetryData
      → Context
      → TelemetryErrorInfo
      → List Attribute
  all_attributes cm store ctx info =
      let attrs1 = append_transport store ctx (attributes cm) in
      let attrs2 = append_text attrs1 (codes "error.type") info.error_type in
      let status : Attribute =
        (codes "rpc.response.status_code", AttrValue.string_value info.status_code) in
      let attrs3 = attrs2 ++ status ∷ [] in
      let attrs4 = append_telemetry ctx attrs3 (codes "rpc.method") (codes "rpc_method") in
      append_telemetry ctx attrs4 (codes "url.template") (codes "url_template")

  -- `ctx_err` is ctx.Err(); `none` where nothing is recorded.
  unfoldable pub record_metric :
      (api : ErrorApi)
      → Inspect api.Err
      → Option api.Err
      → List TransportTelemetryData
      → Context
      → Option (ClientMetrics Histogram)
      → Duration
      → Option api.Err
      → Option (Measurement Histogram)
  record_metric api ins ctx_err store ctx cm d err = elim (duration_histogram cm) [
    | none ↦ none
    | some h ↦ some (record {
      histogram = h;
      context = without_cancel ctx;
      duration = d;
      attrs = all_attributes cm store ctx (extract_telemetry_error_info api ins ctx_err err);
    })
  ]
