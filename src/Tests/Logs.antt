-- ===== src/Tests/Logs.antt =====
-- Package internallog.
use gax_go.Prelude.{ℕ, ◌≡◌, ◌↔◌, refl, List, [], ◌∷◌, none, some, true, map}
use gax_go.Prelude.Int.{pos, ◌≤ℤ◌}
use gax_go.Prelude.Text.{Text, codes, lower, text_eq, itoa}
use gax_go.Callctx.{Headers, IsRange}
use gax_go.Apierror.Printing.{decimal}
use gax_go.Log.Level.{Level, over, own, new, Handler, enabled, severity}
use gax_go.Log.Level.Laws.{name, new_lem}
use gax_go.Prelude.Dict.{get}
use gax_go.Log.Grpc.{Grpc, message_value, proto_message_request, proto_message_response}
use gax_go.Log.Grpc.Laws.{message_value_lem}
use gax_go.Tests.Setup.{background}
use gax_go.Log.Payload.{Payload, Json, Attr, LogValue, group}
use gax_go.Log.Http.{HttpResponse, http_response, response_value}
use gax_go.Log.Http.Laws.{headers_in, payload_in, joined, text_in, Says, response_value_lem}

new_lem_example :
    (new {Own = ℕ} (codes "Warn") (some 7) ≡ own 7)
    × ((h : Handler) × (new {Own = ℕ} (codes "Warn") none ≡ over h)
        × ((enabled h Level.level_error ≡ true) ↔ (
            (lvl : Level) × (map lower (codes "Warn") ≡ name lvl)
            × (severity lvl ≤ℤ severity Level.level_error))))
new_lem_example = new_lem (codes "Warn") 7 Level.level_error

warn_run : new {Own = ℕ} (codes "Warn") none ≡ over (Handler.gcp_handler Level.level_warn)
unfolding new text_eq lower
warn_run = refl

abbrev json : Json
json = record {
  Object = ℕ;
  Array = ℕ;
  unmarshal_object = λ body. none;
  unmarshal_array = λ body. some 2;
  compact = λ body. none;
}

abbrev as_listed : Headers → Headers
as_listed h = h

as_listed-IsRange : IsRange as_listed
as_listed-IsRange = record { same = λ h k. refl; nodup = λ h n. n }

abbrev teapot : HttpResponse
teapot = record {
  status_code = pos 418;
  header = (codes "Accept", codes "a" ∷ codes "b" ∷ []) ∷ [];
}

response_value_lem_example :
    (response_value json as_listed (http_response none (codes "{")) ≡ none)
    × ((attrs : List (Attr json)) × (response_value json as_listed
            (http_response (some teapot) (codes "{"))
          ≡ some (group attrs))
        × (text_in json attrs (codes "status") ≡ some (codes "418"))
        × Says json attrs (HttpResponse.header teapot) (codes "{"))
unfolding decimal itoa
response_value_lem_example = response_value_lem json as_listed as_listed-IsRange teapot (codes "{")

-- A message is a number, and its JSON the text of that number.
abbrev grpc : Grpc
grpc = record {
  Message = ℕ;
  from_outgoing_context = λ ctx. some ((codes "k", codes "a" ∷ codes "b" ∷ []) ∷ []);
  marshal = λ msg. some (itoa msg);
}

abbrev reading : Json
reading = record json { unmarshal_object = λ body. some 5 }

message_value_lem_example :
    (message_value reading grpc as_listed
        (proto_message_request reading grpc as_listed background none)
      ≡ LogValue.no_value)
    × (message_value reading grpc as_listed (proto_message_response reading grpc as_listed none)
        ≡ LogValue.no_value)
    × ((attrs : List (Attr reading)) × (message_value reading grpc as_listed
            (proto_message_request reading grpc as_listed background (some 8))
          ≡ group attrs)
        × ((k : Text)
            → get (headers_in reading attrs) k
              ≡ joined reading (get ((codes "k", codes "a" ∷ codes "b" ∷ []) ∷ []) k))
        × (payload_in reading attrs ≡ some (Payload.object 5)))
    × (message_value reading grpc as_listed (proto_message_response reading grpc as_listed (some 8))
        ≡ group (Attr.payload (Payload.object 5) ∷ []))
message_value_lem_example = message_value_lem reading grpc as_listed as_listed-IsRange background 8
