-- ===== src/Telemetry/Metric/Values.antt =====
-- The values under a key, and what one step of `recordMetric` adds to them.
use gax_go.Prelude.{
  ◌≡◌, refl, List, [], ◌∷◌, ◌++◌, Option, none, some, if◌then◌else◌, arith, Option-cases, inl, inr,
  append-nil,
}
use gax_go.Prelude.Text.{Text, codes, text_eq}
use gax_go.Prelude.Int.{ℤ, pos, eq_ℤ}
use gax_go.Context.{Context}
use gax_go.Callctx.{telemetry_from_context}
use gax_go.Telemetry.{TransportTelemetryData, extract_transport_telemetry, read_data, zero_data}
use gax_go.Telemetry.Metric.{
  AttrValue, Attribute, append_text, append_int, append_telemetry, append_transport,
}

-- The values that stand under a key, in order.
abbrev pub values_of : List Attribute → Text → List AttrValue
values_of [] k = []
values_of ((j, v) ∷ attrs) k =
    let rest = values_of attrs k in if text_eq j k then v ∷ rest else rest

-- The value of a text, of a number and of a text of the context, where it is not left out.
abbrev pub text_value : Text → List AttrValue
text_value [] = []
text_value (c ∷ s) = AttrValue.string_value (c ∷ s) ∷ []

abbrev pub int_value_of : ℤ → List AttrValue
int_value_of n = if eq_ℤ n (pos 0) then [] else AttrValue.int_value n ∷ []

abbrev pub telemetry_value : Option Text → List AttrValue
telemetry_value none = []
telemetry_value (some s) = text_value s

pub values_of-append :
    (a b : List Attribute) (k : Text) → values_of (a ++ b) k ≡ values_of a k ++ values_of b k
values_of-append [] b k = refl
values_of-append ((j, v) ∷ a) b k = ground (arith, values_of-append a b k)

-- What an attribute adds under a key.
abbrev pub under : Text → Text → List AttrValue → List AttrValue
under key k vs = if text_eq key k then vs else []

pub values_of-append_text :
    (a : List Attribute) (key s k : Text)
    → values_of (append_text a key s) k ≡ values_of a k ++ under key k (text_value s)
unfolding append_text
values_of-append_text a key [] k = ground (arith, append-nil (values_of a k))
values_of-append_text a key (c ∷ s) k =
    values_of-append a ((key, AttrValue.string_value (c ∷ s)) ∷ []) k

pub values_of-append_int :
    (a : List Attribute) (key : Text) (n : ℤ) (k : Text)
    → values_of (append_int a key n) k ≡ values_of a k ++ under key k (int_value_of n)
unfolding append_int
values_of-append_int a key n k =
    ground
      (arith, append-nil (values_of a k), values_of-append a ((key, AttrValue.int_value n) ∷ []) k)

pub values_of-append_telemetry :
    (ctx : Context) (a : List Attribute) (key name k : Text)
    → values_of (append_telemetry ctx a key name) k
      ≡ values_of a k ++ under key k (telemetry_value (telemetry_from_context ctx name))
unfolding append_telemetry
values_of-append_telemetry ctx a key name k =
    elim (Option-cases (telemetry_from_context ctx name)) [
      | inl n ↦ ground (arith, append-nil (values_of a k))
      | inr (s, e) ↦ ground (arith, values_of-append_text a key s k)
    ]

-- The data of the transport, or zero values where the context has none.
abbrev pub transport : List TransportTelemetryData → Context → TransportTelemetryData
transport store ctx = elim (extract_transport_telemetry ctx) [
  | none ↦ zero_data
  | some p ↦ read_data store p
]

pub values_of-append_transport :
    (store : List TransportTelemetryData) (ctx : Context) (a : List Attribute) (k : Text)
    → let td = transport store ctx in
      values_of (append_transport store ctx a) k
      ≡ ((values_of a k ++ under (codes "server.address") k (text_value td.server_address))
          ++ under (codes "server.port") k (int_value_of td.server_port))
        ++ under (codes "http.response.status_code") k (int_value_of td.http_status_code)
unfolding append_transport
values_of-append_transport store ctx a k = elim (Option-cases (extract_transport_telemetry ctx)) [
  | inl n ↦ ground (arith, append-nil (values_of a k))
  | inr (p, e) ↦
      let td = read_data store p in
      let a1 = append_text a (codes "server.address") td.server_address in
      let a2 = append_int a1 (codes "server.port") td.server_port in
      ground (
        arith,
        values_of-append_text a (codes "server.address") td.server_address k,
        values_of-append_int a1 (codes "server.port") td.server_port k,
        values_of-append_int a2 (codes "http.response.status_code") td.http_status_code k,
      )
]
