-- ===== src/Telemetry/Metric/Laws.antt =====
-- The attributes of a measurement, by their keys.
use gax_go.Prelude.{ℕ, zero, suc, ◌≡◌, refl, ◌∙◌, List, [], ◌∷◌, ◌++◌, Option, some, append-nil}
use gax_go.Prelude.Text.{Text, codes, text_eq}
use gax_go.Context.{Context}
use gax_go.Callctx.{telemetry_from_context}
use gax_go.Backoff.{Duration}
use gax_go.Apierror.Types.{ErrorApi}
use gax_go.Telemetry.{TransportTelemetryData}
use gax_go.Telemetry.Errors.{Inspect, TelemetryErrorInfo, extract_telemetry_error_info}
use gax_go.Telemetry.Metric.{
  AttrValue, Attribute, ClientMetrics, Measurement, append_text, append_telemetry, append_transport,
  duration_histogram, attributes, all_attributes, record_metric, without_cancel,
}
use gax_go.Telemetry.Metric.Values.{
  values_of, text_value, int_value_of, telemetry_value, values_of-append, under,
  values_of-append_text, values_of-append_telemetry, transport, values_of-append_transport,
}

-- What a measurement adds under a key to the attributes of the client.
added : List TransportTelemetryData → Context → TelemetryErrorInfo → Text → List AttrValue
added store ctx info k =
    let td = transport store ctx in
    (((((under (codes "server.address") k (text_value td.server_address)
              ++ under (codes "server.port") k (int_value_of td.server_port))
            ++ under (codes "http.response.status_code") k (int_value_of td.http_status_code))
          ++ under (codes "error.type") k (text_value info.error_type))
        ++ under (codes "rpc.response.status_code") k
            (AttrValue.string_value info.status_code ∷ []))
      ++ under (codes "rpc.method") k
          (telemetry_value (telemetry_from_context ctx (codes "rpc_method"))))
    ++ under (codes "url.template") k
        (telemetry_value (telemetry_from_context ctx (codes "url_template")))

module _ {Histogram : Type 0} where
  values_of-all_attributes :
      (cm : Option (ClientMetrics Histogram)) (store : List TransportTelemetryData) (ctx : Context)
      (info : TelemetryErrorInfo) (k : Text)
      → values_of (attributes cm) k ≡ []
      → values_of (all_attributes cm store ctx info) k ≡ added store ctx info k
  unfolding all_attributes added
  values_of-all_attributes cm store ctx info k h =
      let a1 = append_transport store ctx (attributes cm) in
      let a2 = append_text a1 (codes "error.type") info.error_type in
      let status : Attribute =
        (codes "rpc.response.status_code", AttrValue.string_value info.status_code) in
      let a3 = a2 ++ status ∷ [] in
      let a4 = append_telemetry ctx a3 (codes "rpc.method") (codes "rpc_method") in
      rw
        (
          values_of-append_telemetry ctx a4 (codes "url.template") (codes "url_template") k,
          values_of-append_telemetry ctx a3 (codes "rpc.method") (codes "rpc_method") k,
          values_of-append a2 (status ∷ []) k,
          values_of-append_text a1 (codes "error.type") info.error_type k,
          values_of-append_transport store ctx (attributes cm) k,
          h,
        )
        refl

-- What the keys that are not asked for leave of a list.
pad : ℕ → List AttrValue → List AttrValue
pad zero vs = vs
pad (suc n) vs = pad n vs ++ []

pad_lem : (n : ℕ) (vs : List AttrValue) → pad n vs ≡ vs
unfolding pad
pad_lem zero vs = refl
pad_lem (suc n) vs = append-nil (pad n vs) ∙ pad_lem n vs

-- The attributes of a client have none of the keys that a measurement adds.
abbrev pub IsStatic : List Attribute → Type 0
IsStatic attrs =
    (values_of attrs (codes "server.address") ≡ [])
    × (values_of attrs (codes "server.port") ≡ [])
    × (values_of attrs (codes "http.response.status_code") ≡ [])
    × (values_of attrs (codes "error.type") ≡ [])
    × (values_of attrs (codes "rpc.response.status_code") ≡ [])
    × (values_of attrs (codes "rpc.method") ≡ [])
    × (values_of attrs (codes "url.template") ≡ [])

-- A list has just these values under the keys that a measurement adds.
abbrev pub Reports :
    List Attribute
    → TransportTelemetryData
    → TelemetryErrorInfo
    → Option Text
    → Option Text
    → Type 0
Reports attrs td info rpc_method url_template =
    (values_of attrs (codes "server.address") ≡ text_value td.server_address)
    × (values_of attrs (codes "server.port") ≡ int_value_of td.server_port)
    × (values_of attrs (codes "http.response.status_code") ≡ int_value_of td.http_status_code)
    × (values_of attrs (codes "error.type") ≡ text_value info.error_type)
    × (values_of attrs (codes "rpc.response.status_code")
        ≡ AttrValue.string_value info.status_code ∷ [])
    × (values_of attrs (codes "rpc.method") ≡ telemetry_value rpc_method)
    × (values_of attrs (codes "url.template") ≡ telemetry_value url_template)

module _ {Histogram : Type 0} where
  all_attributes-Reports :
      (cm : Option (ClientMetrics Histogram)) (store : List TransportTelemetryData) (ctx : Context)
      (info : TelemetryErrorInfo)
      → IsStatic (attributes cm)
      → Reports
          (all_attributes cm store ctx info)
          (transport store ctx)
          info
          (telemetry_from_context ctx (codes "rpc_method"))
          (telemetry_from_context ctx (codes "url_template"))
  unfolding added text_eq pad
  all_attributes-Reports cm store ctx info (h1, h2, h3, h4, h5, h6, h7) =
      let eq = values_of-all_attributes cm store ctx info in
      let td = transport store ctx in
      (
        eq (codes "server.address") h1 ∙ pad_lem 6 (text_value td.server_address),
        eq (codes "server.port") h2 ∙ pad_lem 5 (int_value_of td.server_port),
        eq (codes "http.response.status_code") h3 ∙ pad_lem 4 (int_value_of td.http_status_code),
        eq (codes "error.type") h4 ∙ pad_lem 3 (text_value info.error_type),
        eq (codes "rpc.response.status_code") h5,
        eq (codes "rpc.method") h6 ∙ pad_lem 1 _,
        eq (codes "url.template") h7,
      )

  -- With a histogram, one measurement is made, whose attributes say under each added key just what
  -- is known: no address, port or HTTP code that the transport has not set, an error type only if
  -- it is not empty, the status code always, and the method and the template that the context has;
  -- given that the client's own attributes have other keys.
  pub record_metric_lem :
      (api : ErrorApi) (ins : Inspect api.Err) (ctx_err err : Option api.Err)
      (store : List TransportTelemetryData) (ctx : Context) (cm : Option (ClientMetrics Histogram))
      (d : Duration) (h : Histogram)
      → duration_histogram cm ≡ some h
      → IsStatic (attributes cm)
      → (m : Measurement Histogram) × (record_metric api ins ctx_err store ctx cm d err ≡ some m)
        × (m.histogram ≡ h)
        × (m.duration ≡ d)
        × Reports m.attrs
            (transport store ctx)
            (extract_telemetry_error_info api ins ctx_err err)
            (telemetry_from_context ctx (codes "rpc_method"))
            (telemetry_from_context ctx (codes "url_template"))
  unfolding record_metric
  record_metric_lem api ins ctx_err err store ctx cm d h e static =
      let info = extract_telemetry_error_info api ins ctx_err err in
      (
        record {
          histogram = h;
          context = without_cancel ctx;
          duration = d;
          attrs = all_attributes cm store ctx info;
        },
        rw (e, record_metric) refl,
        refl,
        refl,
        all_attributes-Reports cm store ctx info static,
      )
