-- ===== src/Apierror/Details.antt =====
-- `ErrDetails` and `parseDetails` of v2/apierror/apierror.go. The messages of
-- google/rpc/error_details.proto are records of the fields that the package reads.
pub mod Laws
use gax_go.Prelude.{List, [], ◌∷◌, ◌++◌, Option, none, some}
use gax_go.Prelude.Text.{Text}
use gax_go.Prelude.Dict.{Dict}
use gax_go.Backoff.{Duration}

pub record ErrorInfo : Type 0 where
  pub reason : Text
  pub domain : Text
  pub metadata : Dict Text

pub record FieldViolation : Type 0 where
  pub field : Text
  pub description : Text

pub record PreconditionViolation : Type 0 where
  pub type : Text
  pub subject : Text
  pub description : Text

pub record QuotaViolation : Type 0 where
  pub subject : Text
  pub description : Text

pub record ResourceInfo : Type 0 where
  pub resource_type : Text
  pub resource_name : Text
  pub owner : Text
  pub description : Text

pub record RequestInfo : Type 0 where
  pub request_id : Text
  pub serving_data : Text

pub record DebugInfo : Type 0 where
  pub stack_entries : List Text
  pub detail : Text

pub record Link : Type 0 where
  pub description : Text
  pub url : Text

pub record LocalizedMessage : Type 0 where
  pub locale : Text
  pub message : Text

-- A value of the slice that `parseDetails` is given. `other` is a value of any other type.
pub data Detail (Other : Type 0) : Type 0 where
  error_info : ErrorInfo → Detail Other
  bad_request : List FieldViolation → Detail Other
  precondition_failure : List PreconditionViolation → Detail Other
  quota_failure : List QuotaViolation → Detail Other
  retry_info : Duration → Detail Other
  resource_info : ResourceInfo → Detail Other
  request_info : RequestInfo → Detail Other
  debug_info : DebugInfo → Detail Other
  help : List Link → Detail Other
  localized_message : LocalizedMessage → Detail Other
  other : Other → Detail Other

-- `none` is a nil pointer, `[]` a nil slice.
pub record ErrDetails (Other : Type 0) : Type 0 where
  pub error_info : Option ErrorInfo
  pub bad_request : Option (List FieldViolation)
  pub precondition_failure : Option (List PreconditionViolation)
  pub quota_failure : Option (List QuotaViolation)
  pub retry_info : Option Duration
  pub resource_info : Option ResourceInfo
  pub request_info : Option RequestInfo
  pub debug_info : Option DebugInfo
  pub help : Option (List Link)
  pub localized_message : Option LocalizedMessage
  pub unknown : List Other

abbrev pub no_details : {Other : Type 0} → ErrDetails Other
no_details = record {
  error_info = none;
  bad_request = none;
  precondition_failure = none;
  quota_failure = none;
  retry_info = none;
  resource_info = none;
  request_info = none;
  debug_info = none;
  help = none;
  localized_message = none;
  unknown = [];
}

module _ {Other : Type 0} where
  -- The `switch` of `parseDetails`.
  unfoldable pub add_detail : ErrDetails Other → Detail Other → ErrDetails Other
  add_detail ed (Detail.error_info d) = record ed { error_info = some d }
  add_detail ed (Detail.bad_request d) = record ed { bad_request = some d }
  add_detail ed (Detail.precondition_failure d) = record ed { precondition_failure = some d }
  add_detail ed (Detail.quota_failure d) = record ed { quota_failure = some d }
  add_detail ed (Detail.retry_info d) = record ed { retry_info = some d }
  add_detail ed (Detail.resource_info d) = record ed { resource_info = some d }
  add_detail ed (Detail.request_info d) = record ed { request_info = some d }
  add_detail ed (Detail.debug_info d) = record ed { debug_info = some d }
  add_detail ed (Detail.help d) = record ed { help = some d }
  add_detail ed (Detail.localized_message d) = record ed { localized_message = some d }
  add_detail ed (Detail.other d) = record ed { unknown = ed.unknown ++ d ∷ [] }

  unfoldable pub parse_loop : ErrDetails Other → List (Detail Other) → ErrDetails Other
  parse_loop ed [] = ed
  parse_loop ed (d ∷ ds) = parse_loop (add_detail ed d) ds

  unfoldable pub parse_details : List (Detail Other) → ErrDetails Other
  unfolding parse_loop add_detail
  parse_details details = parse_loop no_details details
