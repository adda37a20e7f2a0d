-- ===== src/Apierror/Parse/Laws.antt =====
-- Which errors become an `APIError`, and what the result holds.
use gax_go.Prelude.{
  List, ◌∷◌, none, some, ◌≡◌, ◌↔◌, ◌⊎◌, inl, inr, refl, arith, Bool, [], if◌then◌else◌, zero,
  Option-cases,
}
use gax_go.Prelude.Text.{Text}
use gax_go.Prelude.Int.{ℤ, negsuc}
use gax_go.Apierror.Codes.{to_code}
use gax_go.Apierror.Details.{Detail, ErrDetails, no_details, parse_details}
use gax_go.Apierror.Types.{Status, HttpError, ApiError, ErrorApi}
use gax_go.Apierror.Parse.{
  coerce_details, parse_error, parse_http_details, unwrap, grpc_status, http_code, message,
}

module _ (api : ErrorApi) (err : api.Err) where
  open api use {Err, Other, from_status, as_http}

  -- A gRPC status error, whatever else it wraps, keeps its status, message and details and has no
  -- HTTP code; the original error is kept exactly when it is wrapped.
  parse_error_status :
      (wrap : Bool) (st : Status Other)
      → from_status err ≡ some st
      → (a : ApiError Err Other) × (parse_error api (some err) wrap ≡ some a)
        × (grpc_status a ≡ some st)
        × (http_code a ≡ negsuc zero)
        × (message a ≡ st.message)
        × (a.details ≡ parse_details st.details)
        × (unwrap a ≡ (if wrap then some err else none))
  unfolding parse_error grpc_status http_code message unwrap
  parse_error_status wrap st h = (
    record {
      err = if wrap then some err else none;
      status = some st;
      http_err = none;
      details = parse_details st.details;
    },
    ground arith,
    refl,
    refl,
    refl,
    refl,
    refl,
  )

  -- An error that is no status but wraps an HTTP error keeps its code and message, has the details
  -- of its body, and a status of the code that `toCode` gives.
  pub parse_error_http :
      (wrap : Bool) (h : HttpError)
      → from_status err ≡ none
      → as_http err ≡ some h
      → (a : ApiError Err Other) × (parse_error api (some err) wrap ≡ some a)
        × (grpc_status a
            ≡ some (record { code = to_code h.code; message = h.message; details = [] }))
        × (http_code a ≡ h.code)
        × (message a ≡ h.message)
        × (a.details ≡ parse_http_details api h)
        × (unwrap a ≡ (if wrap then some err else none))
  unfolding parse_error grpc_status http_code message unwrap
  parse_error_http wrap h e f = (
    record {
      err = if wrap then some err else none;
      status = some (record { code = to_code h.code; message = h.message; details = [] });
      http_err = some h;
      details = parse_http_details api h;
    },
    ground arith,
    refl,
    refl,
    refl,
    refl,
    refl,
  )

  -- Any other error is refused, and no error that is one of the two is.
  pub parse_error-none :
      (wrap : Bool)
      → (parse_error api (some err) wrap ≡ none) ↔ ((from_status err ≡ none) × (as_http err ≡ none))
  unfolding parse_error
  parse_error-none wrap = ground arith

  -- What ParseError gives is an APIError with a status, an HTTP code, a message and details, and with
  -- the original error exactly when it is wrapped.
  abbrev pub Parsed : Bool → Status Other → ℤ → Text → ErrDetails Other → Type 0
  Parsed wrap st code msg details =
      (a : ApiError Err Other) × (parse_error api (some err) wrap ≡ some a)
      × (grpc_status a ≡ some st)
      × (http_code a ≡ code)
      × (message a ≡ msg)
      × (a.details ≡ details)
      × (unwrap a ≡ (if wrap then some err else none))

  -- The details of the values of an anypb.Any that can be unmarshalled, in order.
  abbrev pub Unmarshals : List api.Any → List (Detail Other) → Type 0
  Unmarshals [] ms = ms ≡ []
  Unmarshals (any ∷ anys) ms =
      ((api.unmarshal_new any ≡ none) × Unmarshals anys ms)
      ⊎ ((m : Detail Other) × (rest : List (Detail Other)) × (api.unmarshal_new any ≡ some m)
          × (ms ≡ m ∷ rest)
          × Unmarshals anys rest)

  -- The details in a body: none if it is no error message.
  abbrev pub Reads : Text → ErrDetails Other → Type 0
  Reads body details =
      ((api.unmarshal_error body ≡ none) × (details ≡ no_details))
      ⊎ ((anys : List api.Any) × (ms : List (Detail Other)) × (api.unmarshal_error body ≡ some anys)
          × Unmarshals anys ms
          × (details ≡ parse_details ms))

  coerce_details-Unmarshals : (anys : List api.Any) → Unmarshals anys (coerce_details api anys)
  unfolding coerce_details
  coerce_details-Unmarshals [] = refl
  coerce_details-Unmarshals (any ∷ anys) = elim (Option-cases (api.unmarshal_new any)) [
    | inl e ↦ inl (e, rw (e, coerce_details) (coerce_details-Unmarshals anys))
    | inr (m, e) ↦
        inr (
          m,
          coerce_details api anys,
          e,
          rw (e, coerce_details) refl,
          coerce_details-Unmarshals anys,
        )
  ]

  parse_http_details-Reads : (h : HttpError) → Reads h.body (parse_http_details api h)
  unfolding parse_http_details
  parse_http_details-Reads h = elim (Option-cases (api.unmarshal_error h.body)) [
    | inl e ↦ inl (e, rw (e, parse_http_details) refl)
    | inr (anys, e) ↦ inr (
      anys,
      coerce_details api anys,
      e,
      coerce_details-Unmarshals anys,
      rw (e, parse_http_details) refl,
    )
  ]

  pub parse_error_cases :
      (wrap : Bool)
      → ((st : Status Other) × (from_status err ≡ some st)
          × Parsed wrap st (negsuc zero) st.message (parse_details st.details))
        ⊎ ((h : HttpError) × (from_status err ≡ none)
            × (as_http err ≡ some h)
            × Parsed wrap
                (record { code = to_code h.code; message = h.message; details = [] })
                h.code
                h.message
                (parse_http_details api h))
        ⊎ ((from_status err ≡ none)
            × (as_http err ≡ none)
            × (parse_error api (some err) wrap ≡ none))
  parse_error_cases wrap = elim (Option-cases (from_status err)) [
    | inr (st, e) ↦ inl (st, e, parse_error_status wrap st e)
    | inl e ↦ elim (Option-cases (as_http err)) [
      | inr (h, f) ↦ inr (inl (h, e, f, parse_error_http wrap h e f))
      | inl f ↦ inr (inr (e, f, (parse_error-none wrap).1 (e, f)))
    ]
  ]

  -- ParseError of an error other than nil does one of three things. A gRPC status error, whatever
  -- else it wraps, keeps its status, message and details and has no HTTP code. An error that is no
  -- status but is or wraps an HTTP error keeps its code and message, has a status of the code that
  -- `toCode` gives, and has the details of its body: all values that can be unmarshalled, in order, or
  -- none if the body is no error message. Any other error is refused. The original error is kept
  -- exactly when it is wrapped.
  pub parse_error_lem :
      (wrap : Bool)
      → ((st : Status Other) × (from_status err ≡ some st)
          × Parsed wrap st (negsuc zero) st.message (parse_details st.details))
        ⊎ ((h : HttpError) × (details : ErrDetails Other) × (from_status err ≡ none)
            × (as_http err ≡ some h)
            × Reads h.body details
            × Parsed wrap
                (record { code = to_code h.code; message = h.message; details = [] })
                h.code
                h.message
                details)
        ⊎ ((from_status err ≡ none)
            × (as_http err ≡ none)
            × (parse_error api (some err) wrap ≡ none))
  parse_error_lem wrap = elim (parse_error_cases wrap) [
    | inl rpc ↦ inl rpc
    | inr (inl (h, e, f, parsed)) ↦
        inr (inl (h, parse_http_details api h, e, f, parse_http_details-Reads h, parsed))
    | inr (inr refused) ↦ inr (inr refused)
  ]
