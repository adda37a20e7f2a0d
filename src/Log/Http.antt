-- ===== src/Log/Http.antt =====
-- `request` and `response` of v2/internallog/internallog.go. The order in which `range` visits a map
-- is a parameter.
pub mod Laws
use gax_go.Prelude.{ℕ, List, [], ◌∷◌, ◌++◌, Option, none, some}
use gax_go.Prelude.Text.{Text, codes}
use gax_go.Prelude.Int.{ℤ}
use gax_go.Callctx.{Headers}
use gax_go.Apierror.Printing.{decimal}
use gax_go.Log.Payload.{
  Json, Attr, string, headers, payload, LogValue, no_value, group, process_payload, header_attr,
}

-- What the package reads of a http.Request and of a http.Response.
pub record HttpRequest : Type 0 where
  pub method : Text
  -- req.URL.String(), or `none` for a nil URL, at which it panics
  pub url : Option Text
  pub header : Headers

pub record HttpResponse : Type 0 where
  pub status_code : ℤ
  pub header : Headers

-- A nil pointer is `none`.
pub record Request : Type 0 where
  pub req : Option HttpRequest
  pub body : Text

pub record Response : Type 0 where
  pub resp : Option HttpResponse
  pub body : Text

unfoldable pub http_request : Option HttpRequest → Text → Option Request
http_request req body = some (record { req = req; body = body })

unfoldable pub http_response : Option HttpResponse → Text → Option Response
http_response resp body = some (record { resp = resp; body = body })

module _ (json : Json) where
  -- if len(headerAttr) > 0 { ... }
  unfoldable pub append_headers : List (Attr json) → List (Text × Text) → List (Attr json)
  append_headers attrs [] = attrs
  append_headers attrs (h ∷ hs) = attrs ++ headers (h ∷ hs) ∷ []

  -- if len(r.payload) > 0 { ... }
  unfoldable pub append_payload : List (Attr json) → Text → List (Attr json)
  append_payload attrs [] = attrs
  append_payload attrs (c ∷ body) = elim (process_payload json (c ∷ body)) [
    | some (some attr) ↦ attrs ++ attr ∷ []
    | _ ↦ attrs
  ]

module _ (json : Json) (range : Headers → Headers) where
  -- `LogValue` of a request; `none` is a panic, at a URL that is nil.
  unfoldable pub request_value : Option Request → Option (LogValue json)
  request_value none = some no_value
  request_value (some r) = elim r.req [
    | none ↦ some no_value
    | some req ↦ elim req.url [
      | none ↦ none
      | some url ↦
          let attrs = string (codes "method") req.method ∷ string (codes "url") url ∷ [] in
          some (
            group (
              append_payload json (append_headers json attrs (header_attr (range req.header)))
                r.body))
    ]
  ]

  -- `LogValue` of a response; `none` is a panic, at a response that is nil.
  unfoldable pub response_value : Option Response → Option (LogValue json)
  response_value none = some no_value
  response_value (some r) = elim r.resp [
    | none ↦ none
    | some resp ↦
        let attrs = string (codes "status") (decimal resp.status_code) ∷ [] in
        some (
          group (
            append_payload json (append_headers json attrs (header_attr (range resp.header)))
              r.body))
  ]
