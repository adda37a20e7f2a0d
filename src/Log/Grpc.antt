-- ===== src/Log/Grpc.antt =====
-- v2/internallog/grpclog/grpclog.go. Packages metadata and protojson are parameters.
pub mod Laws
use gax_go.Prelude.{List, [], ◌∷◌, ◌++◌, Option, none, some}
use gax_go.Prelude.Text.{Text}
use gax_go.Callctx.{Headers}
use gax_go.Context.{Context}
use gax_go.Log.Payload.{Json, Attr, payload, object, LogValue, no_value, group, header_attr}
use gax_go.Log.Http.{append_headers}

pub record Grpc : Type 1 where
  pub Message : Type 0
  -- metadata.FromOutgoingContext(ctx)
  pub from_outgoing_context : Context → Option Headers
  -- mo.Marshal(msg)
  pub marshal : Message → Option Text

module _ (json : Json) (grpc : Grpc) (range : Headers → Headers) where
  open grpc use {Message}

  -- A nil context and a nil message are `none`.
  pub record ProtoMessage : Type 0 where
    pub ctx : Option Context
    pub msg : Option Message

  unfoldable pub proto_message_request : Context → Option Message → Option ProtoMessage
  proto_message_request ctx msg = some (record { ctx = some ctx; msg = msg })

  unfoldable pub proto_message_response : Option Message → Option ProtoMessage
  proto_message_response msg = some (record { ctx = none; msg = msg })

  -- if m.ctx != nil { ... }
  unfoldable pub context_attrs : Option Context → List (Attr json)
  context_attrs none = []
  context_attrs (some ctx) = elim (grpc.from_outgoing_context ctx) [
    | none ↦ append_headers json [] []
    | some md ↦ append_headers json [] (header_attr (range md))
  ]

  -- The payload, where the message can be marshalled and read back as an object.
  unfoldable pub append_message : List (Attr json) → Message → List (Attr json)
  append_message attrs msg = elim (grpc.marshal msg) [
    | none ↦ attrs
    | some b ↦ elim (json.unmarshal_object b) [
      | none ↦ attrs
      | some m ↦ attrs ++ payload (object m) ∷ []
    ]
  ]

  unfoldable pub message_value : Option ProtoMessage → LogValue json
  unfolding context_attrs append_message
  message_value none = no_value
  message_value (some m) = elim m.msg [
    | none ↦ no_value
    | some msg ↦ group (append_message (context_attrs m.ctx) msg)
  ]
