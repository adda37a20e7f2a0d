-- ===== src/Telemetry/Errors.antt =====
-- `TelemetryErrorInfo` and `ExtractTelemetryErrorInfo` of v2/telemetry.go.
use gax_go.Prelude.{
  ℕ, suc, List, [], ◌∷◌, Option, none, some, Bool, true, false, if◌then◌else◌, ◌==◌, ◌||◌,
}
use gax_go.Prelude.Text.{Text, codes, itoa}
use gax_go.Prelude.Int.{pos}
use gax_go.Code
use gax_go.Apierror.Types.{ApiError, ErrorApi}
use gax_go.Apierror.Parse.{parse_error, reason, domain, metadata, message, http_code}
use gax_go.Telemetry.{grpc_code_to_status_string}

pub record TelemetryErrorInfo : Type 0 where
  pub error_type : Text
  pub status_code : Text
  pub status_message : Text
  pub domain : Text
  pub metadata : List (Text × Text)

-- What `ExtractTelemetryErrorInfo` uses of packages errors, fmt and status.
pub record Inspect (Err : Type 0) : Type 0 where
  -- errors.Is(err, context.DeadlineExceeded), errors.Is(err, context.Canceled)
  pub is_deadline_exceeded : Err → Bool
  pub is_canceled : Err → Bool
  -- status.FromContextError(err).Code()
  pub context_code : Err → ℕ
  -- fmt.Sprintf("%T", err)
  pub type_name : Err → Text

-- errors.Is of an error that may be nil
abbrev pub is_error : {A : Type 0} → (A → Bool) → Option A → Bool
is_error p none = false
is_error p (some e) = p e

module _ {Err Other : Type 0} where
  -- The reason, or the HTTP code if it is positive, or the calculated type.
  unfoldable pub refine_type : ApiError Err Other → Text → Text
  refine_type a err_type = elim (reason a) [
    | c ∷ s ↦ c ∷ s
    | [] ↦ elim (http_code a) [ pos (suc n) ↦ itoa (suc n) | _ ↦ err_type ]
  ]

  unfoldable pub refine_message : ApiError Err Other → Text → Text
  refine_message a msg = elim (message a) [
    | c ∷ s ↦ c ∷ s
    | [] ↦ elim (http_code a) [ pos (suc n) ↦ [] | _ ↦ msg ]
  ]

module _ (api : ErrorApi) (ins : Inspect api.Err) where
  -- st.Code()
  unfoldable pub rpc_code : api.Err → ℕ
  rpc_code err = elim (api.from_status err) [ some st ↦ st.code | none ↦ ins.context_code err ]

  -- The status is not one that gRPC gives a meaning.
  unfoldable pub is_opaque : api.Err → Bool
  is_opaque err = elim (api.from_status err) [
    | none ↦ true
    | some st ↦ (st.code == Code.unknown) || (st.code == Code.internal)
  ]

  -- `ctx_err` is ctx.Err().
  unfoldable pub calculated_type : Option api.Err → api.Err → Text
  calculated_type ctx_err err =
      if is_error ins.is_deadline_exceeded ctx_err
      then codes "CLIENT_TIMEOUT"
      else if is_error ins.is_canceled ctx_err
      then codes "CLIENT_CANCELLED"
      else if is_opaque err
      then ins.type_name err
      else grpc_code_to_status_string (rpc_code err)

  unfoldable pub raw_message : api.Err → Text
  raw_message err = elim (api.from_status err) [ some st ↦ st.message | none ↦ api.error_text err ]

  unfoldable pub extract_telemetry_error_info : Option api.Err → Option api.Err → TelemetryErrorInfo
  unfolding rpc_code is_opaque calculated_type raw_message refine_type refine_message
  extract_telemetry_error_info ctx_err none = record {
    error_type = [];
    status_code = codes "OK";
    status_message = [];
    domain = [];
    metadata = [];
  }
  extract_telemetry_error_info ctx_err (some err) =
      let rpc_status_code = grpc_code_to_status_string (rpc_code err) in
      let err_type = calculated_type ctx_err err in
      let msg = raw_message err in
      elim (parse_error api (some err) false) [
        | none ↦ record {
          error_type = err_type;
          status_code = rpc_status_code;
          status_message = msg;
          domain = [];
          metadata = [];
        }
        | some a ↦ record {
          error_type = refine_type a err_type;
          status_code = rpc_status_code;
          status_message = refine_message a msg;
          domain = domain a;
          metadata = metadata a;
        }
      ]
