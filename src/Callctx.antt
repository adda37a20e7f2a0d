-- ===== src/Callctx.antt =====
-- Package v2/callctx. A context holds the address of a map of headers, and `Heap` has the maps.
-- The order in which `range` visits a map is a parameter. A slice of values is a list: `append` and
-- `copy` make a new one.
pub mod Headers
pub mod Telemetry
use gax_go.Prelude.{
  ℕ, suc, ◌≡◌, List, [], ◌∷◌, ◌++◌, Option, none, some, Bool, true, false, not, if◌then◌else◌,
  length, get_or,
}
use gax_go.Prelude.Text.{Text}
use gax_go.Prelude.Dict.{Dict, get, put, NodupKeys}
use gax_go.Context.{Context, Key, Value, value, with_value}

-- map[string][]string
abbrev pub Headers : Type 0
Headers = Dict (List Text)

pub record Heap : Type 0 where
  pub maps : List Headers

abbrev pub read : Heap → ℕ → Headers
read heap p = get_or heap.maps p []

-- h[k]: a missing key reads as nil
unfoldable pub values : Headers → Text → List Text
values h k = elim (get h k) [ none ↦ [] | some v ↦ v ]

unfoldable pub odd_length : List Text → Bool
odd_length [] = false
odd_length (s ∷ keyvals) = not (odd_length keyvals)

-- The type assertion on a value of the context, with its second result.
abbrev as_header_map : Option Value → Option ℕ
as_header_map (some (Value.header_map p)) = some p
as_header_map _ = none

-- m, ok := ctx.Value(headerKey).(map[string][]string)
unfoldable pub header_map : Context → Option ℕ
header_map ctx = as_header_map (value ctx Key.header_key)

unfoldable pub headers_from_context : Heap → Context → Headers
headers_from_context heap ctx = elim (header_map ctx) [ none ↦ [] | some p ↦ read heap p ]

-- A visit of a map meets each of its entries once.
pub record IsRange (range : Headers → Headers) : Type 0 where
  pub same : (h : Headers) (k : Text) → get (range h) k ≡ get h k
  pub nodup : (h : Headers) → NodupKeys h → NodupKeys (range h)

-- The loops of `cloneHeaders` and of `SetHeaders`.
unfoldable pub clone_loop : Headers → Headers → Headers
clone_loop [] c = c
clone_loop ((k, v) ∷ h) c = clone_loop h (put c k v)

unfoldable pub clone_headers : (Headers → Headers) → Headers → Headers
unfolding clone_loop
clone_headers range h = clone_loop (range h) []

unfoldable pub add_pairs : List Text → Headers → Headers
add_pairs (k ∷ v ∷ keyvals) h = add_pairs keyvals (put h k (values h k ++ v ∷ []))
add_pairs _ h = h

unfoldable pub start_headers : (Headers → Headers) → Heap → Context → Headers
start_headers range heap ctx = elim (header_map ctx) [
  | none ↦ []
  | some p ↦ clone_headers range (read heap p)
]

-- `none` is a panic.
unfoldable pub set_headers :
    (Headers → Headers) → Heap → Context → List Text → Option (Context × Heap)
unfolding odd_length start_headers add_pairs
set_headers range heap ctx keyvals =
    if odd_length keyvals
    then none
    else (let h = add_pairs keyvals (start_headers range heap ctx) in
        some (
          with_value ctx Key.header_key (Value.header_map (length heap.maps)),
          record { maps = heap.maps ++ h ∷ [] },
        ))

-- The loop of `WithTelemetryContext`.
unfoldable pub add_telemetry : List Text → Context → Context
add_telemetry (k ∷ v ∷ keyvals) ctx =
    add_telemetry keyvals (with_value ctx (Key.telemetry_key k) (Value.text v))
add_telemetry _ ctx = ctx

unfoldable pub with_telemetry_context : Context → List Text → Option Context
unfolding odd_length add_telemetry
with_telemetry_context ctx keyvals =
    if odd_length keyvals then none else some (add_telemetry keyvals ctx)

unfoldable pub telemetry_from_context : Context → Text → Option Text
telemetry_from_context ctx key = elim (value ctx (Key.telemetry_key key)) [
  | some (Value.text val) ↦ some val
  | _ ↦ none
]

-- A *slog.Logger is its address.
unfoldable pub with_logger_context : Context → ℕ → Context
with_logger_context ctx logger = with_value ctx Key.logger_key (Value.logger logger)

unfoldable pub logger_from_context : Context → Option ℕ
logger_from_context ctx = elim (value ctx Key.logger_key) [
  | some (Value.logger l) ↦ some l
  | _ ↦ none
]
