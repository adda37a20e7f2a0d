-- ===== src/Log/Payload.antt =====
-- `processPayload` of v2/internallog/internallog.go, and the attributes that the log values of the
-- package have. Package json is a parameter. Bytes are numbers.
use gax_go.Prelude.{ℕ, List, [], ◌∷◌, Option, none, some, if◌then◌else◌, ◌==◌}
use gax_go.Prelude.Text.{Text, codes, join}
use gax_go.Callctx.{Headers}

pub record Json : Type 1 where
  -- a map[string]any and a []any
  pub Object : Type 0
  pub Array : Type 0
  -- json.Unmarshal into the one and the other
  pub unmarshal_object : Text → Option Object
  pub unmarshal_array : Text → Option Array
  -- json.Compact into an empty buffer, which is left empty on an error
  pub compact : Text → Option Text

module _ (json : Json) where
  open json use {Object, Array}

  pub data Payload : Type 0 where
    object : Object → Payload
    array : Array → Payload
    bytes : Text → Payload

  -- slog.String(key, value), slog.Any("headers", ...) and an attribute of the key "payload"
  pub data Attr : Type 0 where
    string : Text → Text → Attr
    headers : List (Text × Text) → Attr
    payload : Payload → Attr

  -- The zero slog.Value, and slog.GroupValue.
  pub data LogValue : Type 0 where
    no_value : LogValue
    group : List Attr → LogValue

  -- What stands after the peek at the first byte; `none` where no attribute is given.
  unfoldable pub peeked : ℕ → Text → Option Payload
  peeked peek_char body =
      if peek_char == b'{'
      then (elim (json.unmarshal_object body) [ none ↦ none | some m ↦ some (object m) ])
      else if peek_char == b'['
      then (elim (json.unmarshal_array body) [ none ↦ none | some m ↦ some (array m) ])
      else some (bytes (elim (json.compact body) [ none ↦ body | some buf ↦ buf ]))

  -- An empty payload panics: `none`.
  unfoldable pub process_payload : Text → Option (Option Attr)
  unfolding peeked
  process_payload [] = none
  process_payload (c ∷ body) =
      some (elim (peeked c (c ∷ body)) [ none ↦ none | some p ↦ some (payload p) ])

-- The loop over the headers, in the order in which `range` visits them.
unfoldable pub header_attr : Headers → List (Text × Text)
header_attr [] = []
header_attr ((k, val) ∷ header) = (k, join (codes ",") val) ∷ header_attr header
