-- ===== src/Log/Http/Laws.antt =====
-- What the log values have.
use gax_go.Prelude.{
  ◌≡◌, ◌↔◌, ◌⊎◌, inl, inr, refl, sym, ap, ◌∙◌, List, [], ◌∷◌, ◌++◌, append-nil, append_assoc,
  Option-cases, Bool-cases, ◌==◌, ◌≢◌, Option, none, some, arith, if◌then◌else◌,
}
use gax_go.Prelude.Text.{Text, codes, join, text_eq}
use gax_go.Prelude.Dict.{Dict, get}
use gax_go.Callctx.{Headers, IsRange}
use gax_go.Apierror.Printing.{decimal}
use gax_go.Log.Payload.{
  Json, Payload, object, array, bytes, Attr, string, headers, payload, LogValue, group, peeked,
  process_payload, header_attr,
}
use gax_go.Log.Http.{
  HttpRequest, HttpResponse, http_request, http_response, append_headers, append_payload,
  request_value, response_value,
}

module _ (json : Json) where
  -- The text, the headers and the payload among attributes.
  abbrev pub text_in : List (Attr json) → Text → Option Text
  text_in [] k = none
  text_in (string j v ∷ attrs) k = if text_eq j k then some v else text_in attrs k
  text_in (_ ∷ attrs) k = text_in attrs k

  abbrev pub headers_in : List (Attr json) → Dict Text
  headers_in [] = []
  headers_in (headers h ∷ attrs) = h
  headers_in (_ ∷ attrs) = headers_in attrs

  abbrev pub payload_in : List (Attr json) → Option (Payload json)
  payload_in [] = none
  payload_in (payload p ∷ attrs) = some p
  payload_in (_ ∷ attrs) = payload_in attrs

  -- A value that is shown, if there is one.
  abbrev Shows : {A : Type 0} → (A → Payload json) → Option A → Option (Payload json) → Type 0
  Shows make none p = p ≡ none
  Shows make (some a) p = p ≡ some (make a)

  -- A body that is not logged: it is empty, or looks like JSON and is not.
  abbrev pub IsLost : Text → Type 0
  IsLost [] = Unit {0}
  IsLost (c ∷ body) =
      ((c ≡ b'{') × (json.unmarshal_object (c ∷ body) ≡ none))
      ⊎ ((c ≡ b'[') × (json.unmarshal_array (c ∷ body) ≡ none))

  -- What is logged of a body: nothing of an empty one; of one that begins like a JSON object or array
  -- what it reads as, if anything; and of any other its compact form or, where it has none, the body.
  abbrev pub Logs : Text → Option (Payload json) → Type 0
  Logs [] p = p ≡ none
  Logs (c ∷ body) p =
      ((c ≡ b'{') × Shows object (json.unmarshal_object (c ∷ body)) p)
      ⊎ ((c ≡ b'[') × Shows array (json.unmarshal_array (c ∷ body)) p)
      ⊎ ((c ≢ b'{')
          × (c ≢ b'[')
          × (((json.compact (c ∷ body) ≡ none) × (p ≡ some (bytes (c ∷ body))))
              ⊎ ((buf : Text) × (json.compact (c ∷ body) ≡ some buf) × (p ≡ some (bytes buf)))))

  -- The values of a key, joined by commas.
  abbrev pub joined : Option (List Text) → Option Text
  joined none = none
  joined (some val) = some (join (codes ",") val)

  pub get-header_attr : (h : Headers) (k : Text) → get (header_attr h) k ≡ joined (get h k)
  unfolding header_attr get
  get-header_attr [] k = refl
  get-header_attr ((j, v) ∷ h) k = ground (arith, get-header_attr h k)

  -- What a group says of headers and of a body.
  abbrev pub Says : List (Attr json) → Headers → Text → Type 0
  Says attrs h body =
      ((k : Text) → get (headers_in attrs) k ≡ joined (get h k))
      × Logs body (payload_in attrs)
      × ((payload_in attrs ≡ none) ↔ IsLost body)

  abbrev pub header_tail : List (Text × Text) → List (Attr json)
  header_tail [] = []
  header_tail (h ∷ hs) = headers (h ∷ hs) ∷ []

  abbrev pub payload_attrs : Option (Payload json) → List (Attr json)
  payload_attrs none = []
  payload_attrs (some p) = payload p ∷ []

  -- The payload of a body, if it has one.
  abbrev payload_of : Text → Option (Payload json)
  payload_of [] = none
  payload_of (c ∷ body) = peeked json c (c ∷ body)

  -- The attributes behind the first ones.
  abbrev pub tail : List (Text × Text) → Option (Payload json) → List (Attr json)
  tail hs p = header_tail hs ++ payload_attrs p

  pub append_headers_lem :
      (attrs : List (Attr json)) (hs : List (Text × Text))
      → append_headers json attrs hs ≡ attrs ++ header_tail hs
  unfolding append_headers
  append_headers_lem attrs [] = sym (append-nil attrs)
  append_headers_lem attrs (h ∷ hs) = refl

  append_payload_lem :
      (attrs : List (Attr json)) (body : Text)
      → append_payload json attrs body ≡ attrs ++ payload_attrs (payload_of body)
  unfolding append_payload process_payload
  append_payload_lem attrs [] = sym (append-nil attrs)
  append_payload_lem attrs (c ∷ body) = elim (Option-cases (peeked json c (c ∷ body))) [
    | inl e ↦ rw (e, append_payload) (sym (append-nil attrs))
    | inr (p, e) ↦ rw (e, append_payload) refl
  ]

  pub headers_in-tail :
      (hs : List (Text × Text)) (p : Option (Payload json)) → headers_in (tail hs p) ≡ hs
  headers_in-tail [] none = refl
  headers_in-tail [] (some p) = refl
  headers_in-tail (h ∷ hs) p = refl

  pub payload_in-tail :
      (hs : List (Text × Text)) (p : Option (Payload json)) → payload_in (tail hs p) ≡ p
  payload_in-tail [] none = refl
  payload_in-tail [] (some p) = refl
  payload_in-tail (h ∷ hs) none = refl
  payload_in-tail (h ∷ hs) (some p) = refl

  payload_of-none : (body : Text) → (payload_of body ≡ none) ↔ IsLost body
  unfolding peeked
  payload_of-none [] = ((λ _. tt), λ _. refl)
  payload_of-none (c ∷ body) = ground arith

  peeked-Shows :
      {A : Type 0} (make : A → Payload json) (o : Option A) (p : Option (Payload json))
      → p ≡ (elim o [ none ↦ none | some a ↦ some (make a) ])
      → Shows make o p
  peeked-Shows make none p e = e
  peeked-Shows make (some a) p e = e

  payload_of-Logs : (body : Text) → Logs body (payload_of body)
  unfolding peeked
  payload_of-Logs [] = refl
  payload_of-Logs (c ∷ body) = elim (Bool-cases (c == b'{')) [
    | inl e ↦ inl (ground arith, peeked-Shows object _ _ (rw (e, peeked) refl))
    | inr e ↦ elim (Bool-cases (c == b'[')) [
      | inl f ↦ inr (inl (ground arith, peeked-Shows array _ _ (rw (e, f, peeked) refl)))
      | inr f ↦ inr (
          inr (
            (λ q. ground arith),
            (λ q. ground arith),
            elim (Option-cases (json.compact (c ∷ body))) [
              | inl n ↦ inl (n, rw (e, f, n, peeked) refl)
              | inr (buf, n) ↦ inr (buf, n, rw (e, f, n, peeked) refl)
            ],
          ))
    ]
  ]

  -- The headers of a group, whatever the order of iteration.
  get-headers_in :
      (range : Headers → Headers) (law : IsRange range) (h : Headers) (p : Option (Payload json))
      (k : Text)
      → get (headers_in (tail (header_attr (range h)) p)) k ≡ joined (get h k)
  get-headers_in range law h p k =
      rw (headers_in-tail (header_attr (range h)) p)
        (get-header_attr (range h) k ∙ ap joined (law.same h k))

  Says-tail :
      (range : Headers → Headers) (law : IsRange range) (h : Headers) (body : Text)
      → Says (tail (header_attr (range h)) (payload_of body)) h body
  Says-tail range law h body = (
    get-headers_in range law h (payload_of body),
    rw (payload_in-tail (header_attr (range h)) (payload_of body)) (payload_of-Logs body),
    rw (payload_in-tail (header_attr (range h)) (payload_of body)) (payload_of-none body),
  )

  append-tail :
      (attrs : List (Attr json)) (hs : List (Text × Text)) (body : Text)
      → append_payload json (append_headers json attrs hs) body ≡ attrs ++ tail hs (payload_of body)
  append-tail attrs hs body =
      append_payload_lem (append_headers json attrs hs) body
      ∙ ap (λ l. l ++ payload_attrs (payload_of body)) (append_headers_lem attrs hs)
      ∙ append_assoc attrs (header_tail hs) (payload_attrs (payload_of body))

  module _ (range : Headers → Headers) (law : IsRange range) where
    -- The value of a request has its method, its URL and, whatever the order of iteration, each header
    -- with its values joined by commas. Of a body that begins like a JSON object or array it has what
    -- this reads as, of another one that is not empty the compact form or else the body itself. A body
    -- is left out exactly if it is empty or if it begins like an object or an array and is not valid
    -- JSON. A request that is nil has no value, and one whose
    -- URL is nil is left aside.
    pub request_value_lem :
        (req : HttpRequest) (url : Text) (body : Text)
        → req.url ≡ some url
        → (request_value json range (http_request none body) ≡ some LogValue.no_value)
          × ((attrs : List (Attr json)) × (request_value json range (http_request (some req) body)
                ≡ some (group attrs))
              × (text_in attrs (codes "method") ≡ some req.method)
              × (text_in attrs (codes "url") ≡ some url)
              × Says attrs req.header body)
    unfolding request_value http_request text_eq
    request_value_lem req url body e =
        let first : List (Attr json) =
          string (codes "method") req.method ∷ string (codes "url") url ∷ [] in
        (
          refl,
          (
            first ++ tail (header_attr (range req.header)) (payload_of body),
            rw (e, request_value)
                (ap (λ l. some (group l))
                  (append-tail first (header_attr (range req.header)) body)),
            refl,
            refl,
            Says-tail range law req.header body,
          ),
        )

    -- The value of a response has its status, and its headers with their values joined by commas,
    -- whatever the order of iteration. Of a body that begins like a JSON object or array it has what
    -- this reads as, of another one that is not empty the compact form or else the body itself; the
    -- body is left out exactly if it is empty or begins so and is not valid JSON. A response that is
    -- nil panics when its value is taken.
    pub response_value_lem :
        (resp : HttpResponse) (body : Text)
        → (response_value json range (http_response none body) ≡ none)
          × ((attrs : List (Attr json)) × (response_value json range
                  (http_response (some resp) body)
                ≡ some (group attrs))
              × (text_in attrs (codes "status") ≡ some (decimal resp.status_code))
              × Says attrs resp.header body)
    unfolding response_value http_response text_eq
    response_value_lem resp body =
        let first : List (Attr json) = string (codes "status") (decimal resp.status_code) ∷ [] in
        (
          refl,
          (
            first ++ tail (header_attr (range resp.header)) (payload_of body),
            ap (λ l. some (group l)) (append-tail first (header_attr (range resp.header)) body),
            refl,
            Says-tail range law resp.header body,
          ),
        )
