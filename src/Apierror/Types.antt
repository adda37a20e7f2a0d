-- ===== src/Apierror/Types.antt =====
-- `APIError` of v2/apierror/apierror.go, and what the package uses of other packages.
use gax_go.Prelude.{ℕ, List, Option}
use gax_go.Prelude.Text.{Text}
use gax_go.Prelude.Int.{ℤ}
use gax_go.Apierror.Details.{Detail, ErrDetails}

-- google.golang.org/grpc/status.Status
pub record Status (Other : Type 0) : Type 0 where
  pub code : ℕ
  pub message : Text
  pub details : List (Detail Other)

-- google.golang.org/api/googleapi.Error
pub record HttpError : Type 0 where
  pub code : ℤ
  pub message : Text
  pub body : Text

-- `none` is nil, for `err` too.
pub record ApiError (Err Other : Type 0) : Type 0 where
  pub err : Option Err
  pub status : Option (Status Other)
  pub http_err : Option HttpError
  pub details : ErrDetails Other

-- Errors as the package sees them. An `Err` is a value of type `error` that is not nil, an `Other`
-- a detail of a type that the package does not name, an `Any` an anypb.Any.
pub record ErrorApi : Type 1 where
  pub Err : Type 0
  pub Other : Type 0
  pub Any : Type 0
  -- err.Error()
  pub error_text : Err → Text
  -- status.FromError(err), if its second result is true
  pub from_status : Err → Option (Status Other)
  -- errors.As(err, &herr) for a *googleapi.Error
  pub as_http : Err → Option HttpError
  -- protojson.Unmarshal of a body into the Error message, and its details
  pub unmarshal_error : Text → Option (List Any)
  -- any.UnmarshalNew()
  pub unmarshal_new : Any → Option (Detail Other)
  -- a *APIError as a value of type `error`
  pub api_err : ApiError Err Other → Err
  -- `%s` of a map, `%s` of a duration, `%v` of any value
  pub map_text : List (Text × Text) → Text
  pub duration_text : ℤ → Text
  pub other_text : Other → Text
