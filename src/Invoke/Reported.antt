-- ===== src/Invoke/Reported.antt =====
-- What recordMetric makes of the errors that `invoke` has wrapped.
use gax_go.Prelude.{
  ℕ, ◌≡◌, refl, ap, ◌∙◌, [], ◌∷◌, Option, none, some, arith, if◌then◌else◌, ◌==◌, ◌||◌,
}
use gax_go.Prelude.Text.{Text, codes}
use gax_go.Code
use gax_go.Apierror.Codes.{to_code}
use gax_go.Apierror.Details.{ErrorInfo, parse_details}
use gax_go.Apierror.Types.{Status, HttpError, ErrorApi}
use gax_go.Apierror.Parse.{
  parse_error, parse_http_details, reason, domain, metadata, message, http_code,
}
use gax_go.Telemetry.{grpc_code_to_status_string}
use gax_go.Telemetry.Errors.{
  Inspect, TelemetryErrorInfo, is_error, is_opaque, extract_telemetry_error_info, calculated_type,
  rpc_code, raw_message, refine_type, refine_message,
}
use gax_go.Invoke.{Env, wrap_error}
use gax_go.Invoke.Results.{IsStatusMethod, status_of_wrapped}

module _ (api : ErrorApi) (ins : Inspect api.Err) (ctx_err : Option api.Err) where
  -- A status without details is reported with nothing but its code, its message and a type.
  extract_bare :
      (err : api.Err) (st : Status api.Other)
      → api.from_status err ≡ some st
      → st.details ≡ []
      → extract_telemetry_error_info api ins ctx_err (some err) ≡ record {
        error_type = calculated_type api ins ctx_err err;
        status_code = grpc_code_to_status_string st.code;
        status_message = st.message;
        domain = [];
        metadata = [];
      }
  unfolding extract_telemetry_error_info rpc_code raw_message refine_type refine_message parse_error
      reason domain metadata message http_code parse_details
  extract_bare err st e d = ground arith

  -- The type that is calculated for a status.
  calculated_status :
      (err : api.Err) (st : Status api.Other)
      → api.from_status err ≡ some st
      → calculated_type api ins ctx_err err ≡ (
          if is_error ins.is_deadline_exceeded ctx_err
          then codes "CLIENT_TIMEOUT"
          else if is_error ins.is_canceled ctx_err
          then codes "CLIENT_CANCELLED"
          else if (st.code == Code.unknown) || (st.code == Code.internal)
          then ins.type_name err
          else grpc_code_to_status_string st.code)
  unfolding calculated_type is_opaque rpc_code
  calculated_status err st e = ground arith

  -- An HTTP error with a reason is reported under it.
  extract_reported :
      (err : api.Err) (h : HttpError) (info : ErrorInfo) (c : ℕ) (s : Text)
      → api.from_status err ≡ none
      → api.as_http err ≡ some h
      → (parse_http_details api h).error_info ≡ some info
      → info.reason ≡ c ∷ s
      → let i = extract_telemetry_error_info api ins ctx_err (some err) in
        (i.error_type ≡ info.reason) × (i.domain ≡ info.domain) × (i.metadata ≡ info.metadata)
  unfolding extract_telemetry_error_info refine_type parse_error reason domain metadata
  extract_reported err h info c s e f d r = ground arith

  module _ (env : Env api) (method : IsStatusMethod api) where
    extract-wrapped :
        (err : api.Err) (h : HttpError)
        → api.from_status err ≡ none
        → api.as_http err ≡ some h
        → extract_telemetry_error_info api ins ctx_err (some (wrap_error api env err)) ≡ record {
          error_type = calculated_type api ins ctx_err (wrap_error api env err);
          status_code = grpc_code_to_status_string (to_code h.code);
          status_message = h.message;
          domain = [];
          metadata = [];
        }
    extract-wrapped err h e f =
        extract_bare (wrap_error api env err) _ (status_of_wrapped api env method err h e f) refl

    -- Of an HTTP error that gives a reason, ExtractTelemetryErrorInfo reports that reason, its domain
    -- and its metadata. Of what `invoke` makes of this error, given that GRPCStatus of the wrapper
    -- gives its status, none of these is left: the type is a timeout or a cancellation of the client
    -- if the context has ended so, else the name of the wrapper's Go type if `toCode` gives Unknown or
    -- Internal for the HTTP code, else the string of the code that `toCode` gives, and the status
    -- code is that string.
    pub extract-wrap_error :
        (err : api.Err) (h : HttpError) (info : ErrorInfo) (c : ℕ) (s : Text)
        → api.from_status err ≡ none
        → api.as_http err ≡ some h
        → (parse_http_details api h).error_info ≡ some info
        → info.reason ≡ c ∷ s
        → let raw = extract_telemetry_error_info api ins ctx_err (some err) in
          let seen = extract_telemetry_error_info api ins ctx_err (some (wrap_error api env err)) in
          let name = grpc_code_to_status_string (to_code h.code) in
          (raw.error_type ≡ info.reason)
          × (raw.domain ≡ info.domain)
          × (raw.metadata ≡ info.metadata)
          × (seen.error_type ≡ (
              if is_error ins.is_deadline_exceeded ctx_err
              then codes "CLIENT_TIMEOUT"
              else if is_error ins.is_canceled ctx_err
              then codes "CLIENT_CANCELLED"
              else if (to_code h.code == Code.unknown) || (to_code h.code == Code.internal)
              then ins.type_name (wrap_error api env err)
              else name))
          × (seen.status_code ≡ name)
          × (seen.domain ≡ [])
          × (seen.metadata ≡ [])
    extract-wrap_error err h info c s e f d r =
        let (type, dom, meta) = extract_reported err h info c s e f d r in
        let seen = extract-wrapped err h e f in
        (
          type,
          dom,
          meta,
          ap TelemetryErrorInfo.error_type seen
              ∙ calculated_status (wrap_error api env err) _
                  (status_of_wrapped api env method err h e f),
          ap TelemetryErrorInfo.status_code seen,
          ap TelemetryErrorInfo.domain seen,
          ap TelemetryErrorInfo.metadata seen,
        )
