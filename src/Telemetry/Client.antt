-- ===== src/Telemetry/Client.antt =====
-- `TelemetryOption` and `NewClientMetrics` of v2/telemetry.go. OpenTelemetry is a parameter.
pub mod Laws
use gax_go.Prelude.{
  ℕ, List, [], ◌∷◌, ◌++◌, Option, none, some, Bool, true, false, if◌then◌else◌, ◌&&◌, map,
}
use gax_go.Prelude.Text.{Text, codes}
use gax_go.Prelude.Dict.{Dict, get}
use gax_go.Telemetry.Metric.{AttrValue, Attribute, ClientMetrics, ClientMetricsData}

-- What a meter is made from.
pub record MeterConfig : Type 0 where
  pub name : Text
  pub version : Text
  pub schema_url : Text
  pub attrs : List Attribute

pub record Otel : Type 1 where
  pub Provider : Type 0
  pub Histogram : Type 0
  pub Float : Type 0
  pub Logger : Type 0
  -- otel.GetMeterProvider()
  pub get_meter_provider : Provider
  -- provider.Meter(...).Float64Histogram(...), and whether its error is not nil
  pub float64_histogram : Provider → MeterConfig → List Float → Option Histogram × Bool
  -- the number n / 10000
  pub ten_thousandths : ℕ → Float

abbrev client_service : Text
client_service = codes "client_service"

abbrev client_version : Text
client_version = codes "client_version"

abbrev client_artifact : Text
client_artifact = codes "client_artifact"

abbrev rpc_system : Text
rpc_system = codes "rpc_system"

abbrev url_domain : Text
url_domain = codes "url_domain"

abbrev pub key_gcp_client_service : Text
key_gcp_client_service = codes "gcp.client.service"

abbrev pub key_rpc_system_name : Text
key_rpc_system_name = codes "rpc.system.name"

abbrev pub key_url_domain : Text
key_url_domain = codes "url.domain"

abbrev pub schema_url_text : Text
schema_url_text = codes "https://opentelemetry.io/schemas/1.39.0"

-- m[k]: a missing key reads as "".
abbrev text_of : Dict Text → Text → Text
text_of m k = elim (get m k) [ none ↦ [] | some s ↦ s ]

-- The attribute of a key that the map has.
unfoldable pub copy_attr : Dict Text → Text → Text → List Attribute → List Attribute
copy_attr m k key attrs = elim (get m k) [
  | none ↦ attrs
  | some val ↦ attrs ++ (key, AttrValue.string_value val) ∷ []
]

module _ (otel : Otel) where
  open otel use {Provider, Histogram, Float, Logger}

  pub record TelemetryOptions : Type 0 where
    pub provider : Option Provider
    pub attributes : Dict Text
    pub explicit_bucket_boundaries : List Float
    pub logger : Option Logger

  pub data TelemetryOption : Type 0 where
    provider_opt : Option Provider → TelemetryOption
    attr_opt : Dict Text → TelemetryOption
    boundaries_opt : List Float → TelemetryOption
    logger_opt : Option Logger → TelemetryOption

  unfoldable pub resolve_telemetry : TelemetryOption → TelemetryOptions → TelemetryOptions
  resolve_telemetry (provider_opt p) opts = record opts { provider = p }
  resolve_telemetry (attr_opt attrs) opts = record opts { attributes = attrs }
  resolve_telemetry (boundaries_opt bs) opts = record opts { explicit_bucket_boundaries = bs }
  resolve_telemetry (logger_opt l) opts = record opts { logger = l }

  unfoldable pub resolve_options : List TelemetryOption → TelemetryOptions → TelemetryOptions
  unfolding resolve_telemetry
  resolve_options [] opts = opts
  resolve_options (opt ∷ rest) opts = resolve_options rest (resolve_telemetry opt opts)

  abbrev pub zero_options : TelemetryOptions
  zero_options = record {
    provider = none;
    attributes = [];
    explicit_bucket_boundaries = [];
    logger = none;
  }

  abbrev pub default_histogram_boundaries : List Float
  default_histogram_boundaries = map otel.ten_thousandths (
      0 ∷ 1 ∷ 5 ∷ 10 ∷ 50 ∷ 100 ∷ 500 ∷ 1_000 ∷ 5_000 ∷ 10_000 ∷ 50_000 ∷ 100_000 ∷ 600_000
      ∷ 3_000_000 ∷ 9_000_000 ∷ 36_000_000 ∷ [])

  unfoldable pub meter_provider : TelemetryOptions → Provider
  meter_provider config = elim config.provider [ none ↦ otel.get_meter_provider | some p ↦ p ]

  unfoldable pub bucket_boundaries : TelemetryOptions → List Float
  bucket_boundaries config = elim config.explicit_bucket_boundaries [
    | [] ↦ default_histogram_boundaries
    | b ∷ bs ↦ b ∷ bs
  ]

  unfoldable pub meter_config : TelemetryOptions → MeterConfig
  unfolding copy_attr
  meter_config config = record {
    name = text_of config.attributes client_artifact;
    version = text_of config.attributes client_version;
    schema_url = schema_url_text;
    attrs = copy_attr config.attributes client_service key_gcp_client_service [];
  }

  unfoldable pub client_attributes : TelemetryOptions → List Attribute
  unfolding copy_attr
  client_attributes config =
      let attr1 = copy_attr config.attributes url_domain key_url_domain [] in
      copy_attr config.attributes rpc_system key_rpc_system_name attr1

  -- The data that `get` computes, and the logger that it warns, if any.
  unfoldable pub load_metrics : TelemetryOptions → ClientMetricsData Histogram × Option Logger
  load_metrics config =
      let (duration, failed) =
        otel.float64_histogram (meter_provider config) (meter_config config)
          (bucket_boundaries config) in
      (
        record { duration = duration; attr = client_attributes config },
        if failed then config.logger else none,
      )

  unfoldable pub new_client_metrics : List TelemetryOption → ClientMetrics Histogram
  new_client_metrics opts = record {
    get = some (load_metrics (resolve_options opts zero_options)).0;
  }
