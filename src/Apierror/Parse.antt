-- ===== src/Apierror/Parse.antt =====
-- `setDetailsFromError`, `ParseError`, `FromError`, `parseHTTPDetails` and the methods of `APIError`
-- in v2/apierror/apierror.go.
pub mod Laws
use gax_go.Prelude.{
  ℕ, zero, List, [], ◌∷◌, ◌++◌, Option, none, some, Bool, true, false, if◌then◌else◌,
}
use gax_go.Prelude.Text.{Text, codes, trim_space, itoa}
use gax_go.Prelude.Int.{ℤ, pos, negsuc}
use gax_go.Apierror.Codes.{to_code}
use gax_go.Apierror.Details.{Detail, ErrDetails, ErrorInfo, no_details, parse_details}
use gax_go.Apierror.Types.{Status, HttpError, ApiError, ErrorApi}

module _ (api : ErrorApi) where
  open api use {Err, Other, Any, from_status, as_http, unmarshal_error, unmarshal_new}

  -- Malformed Any values are left out.
  unfoldable pub coerce_details : List Any → List (Detail Other)
  coerce_details [] = []
  coerce_details (any ∷ anys) =
      let rest = coerce_details anys in elim (unmarshal_new any) [ none ↦ rest | some m ↦ m ∷ rest ]

  -- A body that does not conform to the schema gives no details.
  unfoldable pub parse_http_details : HttpError → ErrDetails Other
  unfolding coerce_details
  parse_http_details gae = elim (unmarshal_error gae.body) [
    | none ↦ no_details
    | some anys ↦ parse_details (coerce_details anys)
  ]

  -- The receiver after the call, or `none` where it returns false.
  unfoldable pub set_details_from_error : ApiError Err Other → Err → Option (ApiError Err Other)
  set_details_from_error a err = elim (from_status err) [
    | some st ↦ some (record a { status = some st; details = parse_details st.details })
    | none ↦ elim (as_http err) [
      | some herr ↦ some (record a {
        http_err = some herr;
        details = parse_http_details herr;
        status = some (record { code = to_code herr.code; message = herr.message; details = [] });
      })
      | none ↦ none
    ]
  ]

  abbrev pub empty_error : ApiError Err Other
  empty_error = record { err = none; status = none; http_err = none; details = no_details }

  -- A nil `err` is `none`.
  unfoldable pub parse_error : Option Err → Bool → Option (ApiError Err Other)
  unfolding set_details_from_error
  parse_error none wrap = none
  parse_error (some err) wrap =
      set_details_from_error (if wrap then record empty_error { err = some err } else empty_error)
        err

  unfoldable pub from_error : Option Err → Option (ApiError Err Other)
  unfolding parse_error
  from_error err = parse_error err true

module _ {Err Other : Type 0} where
  unfoldable pub unwrap : ApiError Err Other → Option Err
  unwrap a = a.err

  unfoldable pub grpc_status : ApiError Err Other → Option (Status Other)
  grpc_status a = a.status

  unfoldable pub http_code : ApiError Err Other → ℤ
  http_code a = elim a.http_err [ none ↦ negsuc zero | some h ↦ h.code ]

  unfoldable pub message : ApiError Err Other → Text
  message a = elim a.http_err [
    | some h ↦ h.message
    | none ↦ elim a.status [ some st ↦ st.message | none ↦ [] ]
  ]

  -- The getters of a nil *ErrorInfo return zero values.
  unfoldable pub reason : ApiError Err Other → Text
  reason a = elim a.details.error_info [ none ↦ [] | some i ↦ i.reason ]

  unfoldable pub domain : ApiError Err Other → Text
  domain a = elim a.details.error_info [ none ↦ [] | some i ↦ i.domain ]

  unfoldable pub metadata : ApiError Err Other → List (Text × Text)
  metadata a = elim a.details.error_info [ none ↦ [] | some i ↦ i.metadata ]
