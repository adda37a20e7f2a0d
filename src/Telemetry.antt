-- ===== src/Telemetry.antt =====
-- v2/telemetry.go: what is reported about a call.
pub mod Errors
pub mod Metric
pub mod Client
pub mod Laws
-- `TransportTelemetryData`, which a transport fills, and the strings of the status codes.
use gax_go.Prelude.{
  ℕ, ◌<◌, List, [], ◌∷◌, Option, none, some, Bool, if◌then◌else◌, length, get_or, ltb,
}
use gax_go.Prelude.Text.{Text, codes}
use gax_go.Prelude.Int.{ℤ, pos}
use gax_go.Context.{Context, Key, Value, value, with_value}

pub record TransportTelemetryData : Type 0 where
  pub server_address : Text
  pub server_port : ℤ
  pub http_status_code : ℤ

abbrev pub zero_data : TransportTelemetryData
zero_data = record { server_address = []; server_port = pos 0; http_status_code = pos 0 }

unfoldable pub set_server_address : TransportTelemetryData → Text → TransportTelemetryData
set_server_address d addr = record d { server_address = addr }

unfoldable pub set_server_port : TransportTelemetryData → ℤ → TransportTelemetryData
set_server_port d port = record d { server_port = port }

unfoldable pub set_http_status_code : TransportTelemetryData → ℤ → TransportTelemetryData
set_http_status_code d code = record d { http_status_code = code }

unfoldable pub inject_transport_telemetry : Context → ℕ → Context
inject_transport_telemetry ctx p =
    with_value ctx Key.transport_telemetry_key (Value.transport_data p)

-- The address of the data, or `none` for nil.
unfoldable pub extract_transport_telemetry : Context → Option ℕ
extract_transport_telemetry ctx = elim (value ctx Key.transport_telemetry_key) [
  | some (Value.transport_data p) ↦ some p
  | _ ↦ none
]

-- What the transports have written so far, by address.
abbrev pub read_data : List TransportTelemetryData → ℕ → TransportTelemetryData
read_data store p = get_or store p zero_data

abbrev pub code_to_str : List Text
code_to_str =
    codes "OK"
    ∷ codes "CANCELED"
    ∷ codes "UNKNOWN"
    ∷ codes "INVALID_ARGUMENT"
    ∷ codes "DEADLINE_EXCEEDED"
    ∷ codes "NOT_FOUND"
    ∷ codes "ALREADY_EXISTS"
    ∷ codes "PERMISSION_DENIED"
    ∷ codes "RESOURCE_EXHAUSTED"
    ∷ codes "FAILED_PRECONDITION"
    ∷ codes "ABORTED"
    ∷ codes "OUT_OF_RANGE"
    ∷ codes "UNIMPLEMENTED"
    ∷ codes "INTERNAL"
    ∷ codes "UNAVAILABLE"
    ∷ codes "DATA_LOSS"
    ∷ codes "UNAUTHENTICATED"
    ∷ []

-- A codes.Code is unsigned.
unfoldable pub grpc_code_to_status_string : ℕ → Text
grpc_code_to_status_string c =
    if ltb c (length code_to_str) then get_or code_to_str c [] else codes "UNKNOWN"
