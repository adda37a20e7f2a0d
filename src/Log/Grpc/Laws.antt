-- ===== src/Log/Grpc/Laws.antt =====
-- What the log value of a message has.
use gax_go.Prelude.{
  ◌≡◌, refl, sym, ap, ◌∙◌, List, [], ◌++◌, append-nil, Option, none, some, Option-cases, inl, inr,
}
use gax_go.Prelude.Text.{Text}
use gax_go.Prelude.Dict.{get}
use gax_go.Context.{Context}
use gax_go.Callctx.{Headers, IsRange}
use gax_go.Log.Payload.{Json, Payload, Attr, object, LogValue, group, header_attr}
use gax_go.Log.Http.Laws.{
  headers_in, payload_in, joined, header_tail, payload_attrs, tail, append_headers_lem,
  payload_in-tail, headers_in-tail, get-header_attr,
}
use gax_go.Log.Grpc.{
  Grpc, proto_message_request, proto_message_response, context_attrs, append_message, message_value,
}

module _ (json : Json) (grpc : Grpc) (range : Headers → Headers) (law : IsRange range) where
  open grpc use {Message}

  -- The message as an object, where it can be written as JSON and read back.
  abbrev pub read_back : Message → Option (Payload json)
  read_back msg = elim (grpc.marshal msg) [
    | none ↦ none
    | some b ↦ elim (json.unmarshal_object b) [ none ↦ none | some m ↦ some (object m) ]
  ]

  -- The metadata of a context, where a missing one is empty.
  abbrev pub metadata_of : Option Context → Headers
  metadata_of none = []
  metadata_of (some ctx) = elim (grpc.from_outgoing_context ctx) [ none ↦ [] | some md ↦ md ]

  append_message_lem :
      (attrs : List (Attr json)) (msg : Message)
      → append_message json grpc range attrs msg ≡ attrs ++ payload_attrs json (read_back msg)
  unfolding append_message
  append_message_lem attrs msg = elim (Option-cases (grpc.marshal msg)) [
    | inl e ↦ rw (e, append_message, read_back) (sym (append-nil attrs))
    | inr (b, e) ↦ elim (Option-cases (json.unmarshal_object b)) [
      | inl d ↦ rw (e, append_message, read_back, d) (sym (append-nil attrs))
      | inr (m, d) ↦ rw (e, append_message, read_back, d) refl
    ]
  ]

  context_attrs_lem :
      (ctx : Option Context)
      → (hs : List (Text × Text)) × (context_attrs json grpc range ctx ≡ header_tail json hs)
        × ((k : Text) → get hs k ≡ joined json (get (metadata_of ctx) k))
  unfolding context_attrs get
  context_attrs_lem none = ([], refl, λ k. refl)
  context_attrs_lem (some ctx) = elim (Option-cases (grpc.from_outgoing_context ctx)) [
    | inl e ↦ (
      [],
      rw (e, context_attrs) (append_headers_lem json [] []),
      λ k. rw (e, joined, metadata_of, get) refl,
    )
    | inr (md, e) ↦ (
      header_attr (range md),
      rw (e, context_attrs) (append_headers_lem json [] (header_attr (range md))),
      λ k.
          rw (e, joined, metadata_of, get)
            (get-header_attr json (range md) k ∙ ap (joined json) (law.same md k)),
    )
  ]

  -- The value of a message has, whatever the order of iteration, each header of the context's outgoing
  -- metadata with its values joined by commas, and none where it was made without a context; and the
  -- message as an object, exactly where it can be written as JSON and read back. A message that is nil
  -- has no value.
  pub message_value_lem :
      (ctx : Context) (msg : Message)
      → (message_value json grpc range (proto_message_request json grpc range ctx none)
          ≡ LogValue.no_value)
        × (message_value json grpc range (proto_message_response json grpc range none)
            ≡ LogValue.no_value)
        × ((attrs : List (Attr json)) × (message_value json grpc range
                (proto_message_request json grpc range ctx (some msg))
              ≡ group attrs)
            × ((k : Text)
                → get (headers_in json attrs) k ≡ joined json (get (metadata_of (some ctx)) k))
            × (payload_in json attrs ≡ read_back msg))
        × (message_value json grpc range (proto_message_response json grpc range (some msg))
            ≡ group (payload_attrs json (read_back msg)))
  unfolding message_value proto_message_request proto_message_response context_attrs
  message_value_lem ctx msg =
      let (hs, e, h) = context_attrs_lem (some ctx) in
      (
        refl,
        refl,
        (
          tail json hs (read_back msg),
          ap group (
              append_message_lem (context_attrs json grpc range (some ctx)) msg
              ∙ ap (λ l. l ++ payload_attrs json (read_back msg)) e),
          λ k. rw (headers_in-tail json hs (read_back msg)) (h k),
          payload_in-tail json hs (read_back msg),
        ),
        ap group (append_message_lem [] msg),
      )
