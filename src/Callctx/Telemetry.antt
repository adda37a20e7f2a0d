-- ===== src/Callctx/Telemetry.antt =====
-- What a context answers after `WithTelemetryContext` and `WithLoggerContext`.
use gax_go.Prelude.{
  ℕ, ◌≡◌, ◌≢◌, refl, ◌∙◌, List, [], ◌∷◌, Option, some, false, arith, if◌then◌else◌,
}
use gax_go.Prelude.Text.{Text, text_eq}
use gax_go.Context.{Context, Key, Value, value, with_value, value-with_value, key_eq, key_eq_iff}
use gax_go.Callctx.{odd_length, add_telemetry, with_telemetry_context, telemetry_from_context}

-- The last value that a list of keys and values gives to a key.
abbrev pub last_given : List Text → Text → Option Text → Option Text
last_given (j ∷ v ∷ keyvals) k old = last_given keyvals k (if text_eq j k then some v else old)
last_given _ k old = old

telemetry-with_value :
    (ctx : Context) (j k v : Text)
    → telemetry_from_context (with_value ctx (Key.telemetry_key j) (Value.text v)) k
      ≡ (if text_eq j k then some v else telemetry_from_context ctx k)
unfolding telemetry_from_context value with_value key_eq
telemetry-with_value ctx j k v = ground arith

telemetry-add_telemetry :
    (keyvals : List Text) (ctx : Context) (k : Text)
    → telemetry_from_context (add_telemetry keyvals ctx) k
      ≡ last_given keyvals k (telemetry_from_context ctx k)
unfolding add_telemetry
telemetry-add_telemetry [] ctx k = refl
telemetry-add_telemetry (j ∷ []) ctx k = refl
telemetry-add_telemetry (j ∷ v ∷ keyvals) ctx k =
    telemetry-add_telemetry keyvals _ k ∙ rw telemetry-with_value refl

value-add_telemetry :
    (keyvals : List Text) (ctx : Context) (k : Key)
    → ((t : Text) → k ≢ Key.telemetry_key t)
    → value (add_telemetry keyvals ctx) k ≡ value ctx k
unfolding add_telemetry
value-add_telemetry [] ctx k other = refl
value-add_telemetry (j ∷ []) ctx k other = refl
value-add_telemetry (j ∷ v ∷ keyvals) ctx k other =
    value-add_telemetry keyvals _ k other
    ∙ ground (
      arith,
      value-with_value ctx (Key.telemetry_key j) k (Value.text v),
      key_eq_iff (Key.telemetry_key j) k,
      other j,
    )

deadline-add_telemetry :
    (keyvals : List Text) (ctx : Context) → (add_telemetry keyvals ctx).deadline ≡ ctx.deadline
unfolding add_telemetry with_value
deadline-add_telemetry [] ctx = refl
deadline-add_telemetry (j ∷ []) ctx = refl
deadline-add_telemetry (j ∷ v ∷ keyvals) ctx = deadline-add_telemetry keyvals _

-- With a value for every key, `TelemetryFromContext` gives the last value set for a key, and the old
-- one if none is; headers, logger, transport data, foreign values and the deadline stay.
pub with_telemetry_context_lem :
    (ctx : Context) (keyvals : List Text)
    → odd_length keyvals ≡ false
    → (ctx' : Context) × (with_telemetry_context ctx keyvals ≡ some ctx')
      × ((k : Text)
          → telemetry_from_context ctx' k ≡ last_given keyvals k (telemetry_from_context ctx k))
      × (value ctx' Key.header_key ≡ value ctx Key.header_key)
      × (value ctx' Key.logger_key ≡ value ctx Key.logger_key)
      × (value ctx' Key.transport_telemetry_key ≡ value ctx Key.transport_telemetry_key)
      × ((n : ℕ) → value ctx' (Key.foreign_key n) ≡ value ctx (Key.foreign_key n))
      × (ctx'.deadline ≡ ctx.deadline)
unfolding with_telemetry_context
with_telemetry_context_lem ctx keyvals even = (
  add_telemetry keyvals ctx,
  rw even refl,
  telemetry-add_telemetry keyvals ctx,
  value-add_telemetry keyvals ctx Key.header_key (λ t e. cc),
  value-add_telemetry keyvals ctx Key.logger_key (λ t e. cc),
  value-add_telemetry keyvals ctx Key.transport_telemetry_key (λ t e. cc),
  λ n. value-add_telemetry keyvals ctx (Key.foreign_key n) (λ t e. cc),
  deadline-add_telemetry keyvals ctx,
)
