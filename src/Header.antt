-- ===== src/Header.antt =====
-- v2/header.go: the x-goog-api-client header, and the metadata of an outgoing call. The order in
-- which `range` visits a map, and package metadata, are parameters.
pub mod Merge
pub mod Metadata
pub mod Sent
pub mod Unordered
pub mod Version
pub mod XGoog
pub mod RoundTrip
use gax_go.Prelude.{
  ℕ, ◌-◌, List, [], ◌∷◌, ◌++◌, Option, none, some, Bool, true, false, if◌then◌else◌, length, take,
  drop,
}
use gax_go.Prelude.Text.{Text, codes, text_eq}
use gax_go.Prelude.Dict.{put}
use gax_go.Context.{Context}
use gax_go.Callctx.{Headers, Heap, values, odd_length, headers_from_context}

-- The loop of `XGoogHeader` over the buffer.
unfoldable pub write_pairs : List Text → Text → Text
write_pairs (k ∷ v ∷ keyval) buf = write_pairs keyval (((buf ++ codes " ") ++ k) ++ codes "/" ++ v)
write_pairs _ buf = buf

-- `none` is a panic.
unfoldable pub x_goog_header : List Text → Option Text
unfolding odd_length write_pairs
x_goog_header [] = some []
x_goog_header (s ∷ keyval) =
    if odd_length (s ∷ keyval) then none else some (drop 1 (write_pairs (s ∷ keyval) []))

abbrev pub x_goog : Text
x_goog = codes "x-goog-api-client"

-- mergedXgoogHeader takes each value and a space.
unfoldable pub write_all : List Text → Text → Text
write_all [] merged = merged
write_all (v ∷ vals) merged = write_all vals ((merged ++ v) ++ codes " ")

-- The loop over the headers of the context.
unfoldable pub merge_headers : Headers → Headers → Text → Headers × Text
merge_headers [] out merged = (out, merged)
merge_headers ((k, vals) ∷ headers) out merged =
    let special = text_eq k x_goog in
    merge_headers headers (if special then out else put out k (values out k ++ vals))
      (if special then write_all vals merged else merged)

-- The loop over the keys and values.
unfoldable pub merge_keyvals : List Text → Headers → Text → Headers × Text
merge_keyvals (k ∷ v ∷ keyvals) out merged =
    merge_keyvals keyvals (put out k (values out k ++ v ∷ []))
      (if text_eq k x_goog then (merged ++ v) ++ codes " " else merged)
merge_keyvals _ out merged = (out, merged)

-- The single header, without the last space.
unfoldable pub put_merged : Headers → Text → Headers
put_merged out [] = out
put_merged out (c ∷ merged) = put out x_goog (take (length (c ∷ merged) - 1) (c ∷ merged) ∷ [])

-- `outgoing` is what metadata.FromOutgoingContext gives; `none` as a result is a panic.
unfoldable pub insert_metadata :
    (Headers → Headers) → Heap → Option Headers → Context → List Text → Option Headers
unfolding odd_length merge_headers merge_keyvals put_merged write_all
insert_metadata range heap outgoing ctx keyvals =
    if odd_length keyvals
    then none
    else (let out : Headers = elim outgoing [ none ↦ [] | some md ↦ md ] in
        let (out1, merged1) = merge_headers (range (headers_from_context heap ctx)) out [] in
        let (out2, merged2) = merge_keyvals keyvals out1 merged1 in some (put_merged out2 merged2))

-- What the program uses of package metadata.
pub record Outgoing : Type 0 where
  -- metadata.FromOutgoingContext(ctx)
  pub from_outgoing_context : Context → Option Headers
  -- metadata.NewOutgoingContext(ctx, md)
  pub new_outgoing_context : Context → Headers → Context

unfoldable pub insert_metadata_into_outgoing_context :
    (Headers → Headers) → Outgoing → Heap → Context → List Text → Option Context
insert_metadata_into_outgoing_context range outer heap ctx keyvals =
    elim (insert_metadata range heap (outer.from_outgoing_context ctx) ctx keyvals) [
      | none ↦ none
      | some md ↦ some (outer.new_outgoing_context ctx md)
    ]

-- The header of an HTTP request; `none` is a panic.
unfoldable pub build_headers :
    (Headers → Headers) → Outgoing → Heap → Context → List Text → Option Headers
build_headers range outer heap ctx keyvals =
    insert_metadata range heap (outer.from_outgoing_context ctx) ctx keyvals
