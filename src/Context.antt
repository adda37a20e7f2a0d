-- ===== src/Context.antt =====
-- Package context, as far as the program uses it: a deadline and the values of `WithValue`. The keys
-- are the program's own key types; maps and structs behind a pointer are named by an address.
use gax_go.Prelude.{ℕ, List, [], ◌∷◌, Option, none, some, Bool, true, false, if◌then◌else◌, ◌==◌}
use gax_go.Prelude.{◌≡◌, ◌↔◌, refl, arith}
use gax_go.Prelude.Text.{Text, text_eq, text_eq_iff}
use gax_go.Prelude.Int.{ℤ}

pub data Key : Type 0 where
  header_key logger_key transport_telemetry_key : Key
  telemetry_key : Text → Key
  -- a key of another package
  foreign_key : ℕ → Key

pub data Value : Type 0 where
  -- the address of a map of headers
  header_map : ℕ → Value
  text : Text → Value
  -- the address of a *slog.Logger
  logger : ℕ → Value
  -- the address of a *TransportTelemetryData
  transport_data : ℕ → Value
  foreign : ℕ → Value

pub record Context : Type 0 where
  pub deadline : Option ℤ
  pub values : List (Key × Value)

unfoldable pub key_eq : Key → Key → Bool
key_eq Key.header_key Key.header_key = true
key_eq Key.logger_key Key.logger_key = true
key_eq Key.transport_telemetry_key Key.transport_telemetry_key = true
key_eq (Key.telemetry_key s) (Key.telemetry_key t) = text_eq s t
key_eq (Key.foreign_key m) (Key.foreign_key n) = m == n
key_eq _ _ = false

pub key_eq_iff : (j k : Key) → (key_eq j k ≡ true) ↔ (j ≡ k)
unfolding key_eq
key_eq_iff Key.header_key k = ground arith
key_eq_iff Key.logger_key k = ground arith
key_eq_iff Key.transport_telemetry_key k = ground arith
key_eq_iff (Key.foreign_key m) k = ground arith
key_eq_iff (Key.telemetry_key s) (Key.telemetry_key t) = ground (arith, text_eq_iff s t)
key_eq_iff (Key.telemetry_key s) _ = ground arith

unfoldable pub lookup : List (Key × Value) → Key → Option Value
lookup [] k = none
lookup ((j, v) ∷ values) k = if key_eq j k then some v else lookup values k

-- ctx.Value(k)
unfoldable pub value : Context → Key → Option Value
unfolding lookup key_eq
value ctx k = lookup ctx.values k

-- context.WithValue(ctx, k, v)
unfoldable pub with_value : Context → Key → Value → Context
with_value ctx k v = record ctx { values = (k, v) ∷ ctx.values }

pub value-with_value :
    (ctx : Context) (j k : Key) (v : Value)
    → value (with_value ctx j v) k ≡ (if key_eq j k then some v else value ctx k)
unfolding value with_value
value-with_value ctx j k v = refl
