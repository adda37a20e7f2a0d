-- ===== src/Tests/Contexts.antt =====
-- Contexts, headers, feature flags and call options.
use native.Mathlib.Omega.{arith}
use gax_go.Prelude.{
  ℕ, ◌≡◌, ◌↔◌, refl, ap, List, [], ◌∷◌, ◌++◌, Option, none, some, true, take, if◌then◌else◌,
}
use gax_go.Prelude.Int.{pos}
use gax_go.CallOption.{CallOption, CallSettings, path_opt, timeout_opt, resolve_all, zero_settings}
use gax_go.CallOption.Laws.{resolve_all_lem}
use gax_go.Prelude.Text.{Text, codes, text_eq, text_eq_iff}
use gax_go.Prelude.Dict.{NodupKeys, get}
use gax_go.CallOption.{CallOption, path_opt, timeout_opt}
use gax_go.Context.{Context, Key, Value, value, key_eq}
use gax_go.Callctx.{
  Headers, Heap, IsRange, values, odd_length, set_headers, headers_from_context, header_map,
  with_telemetry_context, telemetry_from_context,
}
use gax_go.Callctx.Headers.{IsValid, given, set_headers_lem}
use gax_go.Callctx.Telemetry.{last_given, with_telemetry_context_lem}
use gax_go.Feature.{is_feature_enabled, reset}
use gax_go.Feature.Laws.{IsEnabledBy, is_feature_enabled_iff}
use gax_go.Header.{
  x_goog, x_goog_header, Outgoing, build_headers, insert_metadata_into_outgoing_context,
}
use gax_go.Header.Unordered.{unordered, build_headers-range}
use gax_go.Header.Sent.{IsSeparate, build_headers-set_headers}
use gax_go.Header.Metadata.{sent, outgoing_metadata}

abbrev in_order : Headers → Headers
in_order h = h

in_order-IsRange : IsRange in_order
in_order-IsRange = record { same = λ h k. refl; nodup = λ h n. n }

-- The context's headers, at address 0.
abbrev heap : Heap
heap = record { maps = ((codes "a", codes "1" ∷ []) ∷ (x_goog, codes "gl-go/1.22" ∷ []) ∷ []) ∷ [] }

abbrev ctx : Context
ctx = record { deadline = none; values = (Key.header_key, Value.header_map 0) ∷ [] }

heap-IsValid : IsValid heap ctx
unfolding get text_eq header_map value key_eq
heap-IsValid = record { nodup = ((refl, (refl, tt)), tt); in_heap = λ p e. ground arith }

abbrev more : List Text
more = codes "a" ∷ codes "2" ∷ codes "b" ∷ codes "3" ∷ []

set_headers_lem_example :
    (ctx' : Context) × (heap' : Heap) × (set_headers in_order heap ctx more ≡ some (ctx', heap'))
    × ((k : Text)
        → values (headers_from_context heap' ctx') k
          ≡ values (headers_from_context heap ctx) k ++ given more k)
    × (take 1 heap'.maps ≡ heap.maps)
    × ((k : Key)
        → value ctx' k
          ≡ (if key_eq Key.header_key k then some (Value.header_map 1) else value ctx k))
    × IsValid heap' ctx'
unfolding odd_length
set_headers_lem_example = set_headers_lem in_order heap ctx more in_order-IsRange heap-IsValid refl

with_telemetry_context_lem_example :
    (ctx' : Context) × (with_telemetry_context ctx more ≡ some ctx')
    × ((k : Text)
        → telemetry_from_context ctx' k ≡ last_given more k (telemetry_from_context ctx k))
    × (value ctx' Key.header_key ≡ value ctx Key.header_key)
    × (value ctx' Key.logger_key ≡ value ctx Key.logger_key)
    × (value ctx' Key.transport_telemetry_key ≡ value ctx Key.transport_telemetry_key)
    × ((n : ℕ) → value ctx' (Key.foreign_key n) ≡ value ctx (Key.foreign_key n))
    × (ctx'.deadline ≡ none)
unfolding odd_length
with_telemetry_context_lem_example = with_telemetry_context_lem ctx more refl

abbrev outgoing : Option Headers
outgoing = some ((x_goog, codes "grpc/1.60" ∷ []) ∷ (codes "c", codes "4" ∷ []) ∷ [])

headers-NodupKeys : NodupKeys (headers_from_context heap ctx)
unfolding headers_from_context header_map value key_eq get text_eq
headers-NodupKeys = (refl, (refl, tt))

-- Package metadata keeps the outgoing metadata under the foreign key 0; here a context has some
-- exactly if that key is set.
abbrev stored : Option Value → Option Headers
stored none = none
stored (some v) = outgoing

abbrev outer : Outgoing
outer = record {
  from_outgoing_context = λ c. stored (value c (Key.foreign_key 0));
  new_outgoing_context = λ c md. c;
}

outer-IsSeparate : IsSeparate outer
outer-IsSeparate = record { separate = λ c c' h. ap stored (h 0) }

build_headers-set_headers_example :
    (ctx' : Context) × (heap' : Heap) × (md : Headers) × (set_headers in_order heap ctx more
      ≡ some (ctx', heap'))
    × (build_headers in_order outer heap' ctx' more ≡ some md)
    × (insert_metadata_into_outgoing_context in_order outer heap' ctx' more
        ≡ some (outer.new_outgoing_context ctx' md))
    × ((k : Text)
        → values md k
          ≡ sent k
              (values (outgoing_metadata (outer.from_outgoing_context ctx)) k)
              ((values (headers_from_context heap ctx) k ++ given more k) ++ given more k))
unfolding odd_length
build_headers-set_headers_example =
    build_headers-set_headers in_order outer heap ctx more more in_order-IsRange outer-IsSeparate
      heap-IsValid refl refl

-- The first two keys of a map change places.
abbrev swapped : Headers → Headers
swapped ((k, v) ∷ (j, w) ∷ h) = if text_eq k j then (k, v) ∷ (j, w) ∷ h else (j, w) ∷ (k, v) ∷ h
swapped h = h

get-swapped : (h : Headers) (k : Text) → get (swapped h) k ≡ get h k
unfolding get
get-swapped [] k = refl
get-swapped ((j, v) ∷ []) k = refl
get-swapped ((i, v) ∷ (j, w) ∷ h) k =
    ground (arith, text_eq_iff i j, text_eq_iff i k, text_eq_iff j k)

swapped-NodupKeys : (h : Headers) → NodupKeys h → NodupKeys (swapped h)
unfolding get
swapped-NodupKeys [] n = n
swapped-NodupKeys ((j, v) ∷ []) n = n
swapped-NodupKeys ((i, v) ∷ (j, w) ∷ h) n = ground (arith, text_eq_iff i j, text_eq_iff j i)

swapped-IsRange : IsRange swapped
swapped-IsRange = record { same = get-swapped; nodup = swapped-NodupKeys }

build_headers-range_example :
    unordered (build_headers in_order outer heap ctx more)
    ≡ unordered (build_headers swapped outer heap ctx more)
build_headers-range_example =
    build_headers-range in_order swapped in_order-IsRange swapped-IsRange heap ctx headers-NodupKeys
      outer more

x_goog_header_run : x_goog_header more ≡ some (codes "a/2 b/3")
unfolding x_goog_header
x_goog_header_run = refl

abbrev environ : List Text
environ = codes "HOME=/" ∷ codes "GOOGLE_SDK_GO_EXPERIMENTAL_TRACING=True" ∷ []

is_feature_enabled_iff_example :
    ((is_feature_enabled environ reset (codes "TRACING")).0 ≡ true)
    ↔ IsEnabledBy environ (codes "TRACING")
is_feature_enabled_iff_example = is_feature_enabled_iff environ (codes "TRACING")

abbrev options : List (CallOption ℕ ℕ ℕ ℕ)
options = path_opt (codes "/v1") ∷ timeout_opt (pos 5) ∷ path_opt (codes "/v2") ∷ []

abbrev call_opts : List (CallOption ℕ ℕ ℕ ℕ)
call_opts = path_opt (codes "a") ∷ timeout_opt (pos 5) ∷ path_opt (codes "b") ∷ []

resolve_all_lem_example :
    let t : CallSettings ℕ ℕ ℕ ℕ = resolve_all call_opts zero_settings in
    (t.retry ≡ none)
    × (t.grpc ≡ [])
    × (t.path ≡ codes "b")
    × (t.timeout ≡ pos 5)
    × (t.client_metrics ≡ none)
resolve_all_lem_example = resolve_all_lem call_opts zero_settings
