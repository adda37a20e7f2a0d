-- ===== src/Apierror/Printing.antt =====
-- `ErrDetails.String`, `APIError.Error` and `ErrDetails.ExtractProtoMessage` of
-- v2/apierror/apierror.go.
pub mod Laws
pub mod Extract
use gax_go.Prelude.{
  ℕ, suc, ◌+◌, List, [], ◌∷◌, ◌++◌, Option, none, some, Bool, true, false, if◌then◌else◌, map,
}
use gax_go.Prelude.Text.{Text, codes, trim_space, join, itoa, concat, newline}
use gax_go.Prelude.Int.{ℤ, pos, negsuc}
use gax_go.Apierror.Details.{
  ErrDetails, ErrorInfo, FieldViolation, PreconditionViolation, QuotaViolation, ResourceInfo,
  RequestInfo, DebugInfo, Link, LocalizedMessage,
}
use gax_go.Apierror.Types.{ApiError, ErrorApi}

abbrev words : List Text → Text
words = join (codes " ")

-- %d
unfoldable pub decimal : ℤ → Text
decimal (pos n) = itoa n
decimal (negsuc n) = b'-' ∷ itoa (suc n)

unfoldable pub bad_request_line : List FieldViolation → Text
bad_request_line v = concat (
    codes "error details: name = BadRequest field = "
    ∷ words (map (λ x. x.field) v)
    ∷ codes " desc = "
    ∷ words (map (λ x. x.description) v)
    ∷ newline
    ∷ [])

unfoldable pub precondition_failure_line : List PreconditionViolation → Text
precondition_failure_line v = concat (
    codes "error details: name = PreconditionFailure type = "
    ∷ words (map (λ x. x.type) v)
    ∷ codes " subj = "
    ∷ words (map (λ x. x.subject) v)
    ∷ codes " desc = "
    ∷ words (map (λ x. x.description) v)
    ∷ newline
    ∷ [])

unfoldable pub quota_failure_line : List QuotaViolation → Text
quota_failure_line v = concat (
    codes "error details: name = QuotaFailure subj = "
    ∷ words (map (λ x. x.subject) v)
    ∷ codes " desc = "
    ∷ words (map (λ x. x.description) v)
    ∷ newline
    ∷ [])

unfoldable pub request_info_line : RequestInfo → Text
request_info_line r = concat (
    codes "error details: name = RequestInfo id = "
    ∷ r.request_id
    ∷ codes " data = "
    ∷ r.serving_data
    ∷ newline
    ∷ [])

unfoldable pub resource_info_line : ResourceInfo → Text
resource_info_line r = concat (
    codes "error details: name = ResourceInfo type = "
    ∷ r.resource_type
    ∷ codes " resourcename = "
    ∷ r.resource_name
    ∷ codes " owner = "
    ∷ r.owner
    ∷ codes " desc = "
    ∷ r.description
    ∷ newline
    ∷ [])

unfoldable pub debug_info_line : DebugInfo → Text
debug_info_line i = concat (
    codes "error details: name = DebugInfo detail = "
    ∷ i.detail
    ∷ codes " stack = "
    ∷ words i.stack_entries
    ∷ newline
    ∷ [])

unfoldable pub help_line : List Link → Text
help_line links = concat (
    codes "error details: name = Help desc = "
    ∷ words (map (λ x. x.description) links)
    ∷ codes " url = "
    ∷ words (map (λ x. x.url) links)
    ∷ newline
    ∷ [])

unfoldable pub localized_message_line : LocalizedMessage → Text
localized_message_line m = concat (
    codes "error details: name = LocalizedMessage locale = "
    ∷ m.locale
    ∷ codes " msg = "
    ∷ m.message
    ∷ newline
    ∷ [])

-- What the builder holds after a detail that may be nil.
unfoldable pub write : {A : Type 0} → (A → Text) → Option A → Text → Text
write line none d = d
write line (some x) d = d ++ line x

module _ (api : ErrorApi) where
  open api use {Err, Other}

  unfoldable pub error_info_line : ErrorInfo → Text
  error_info_line i = concat (
      codes "error details: name = ErrorInfo reason = "
      ∷ i.reason
      ∷ codes " domain = "
      ∷ i.domain
      ∷ codes " metadata = "
      ∷ api.map_text i.metadata
      ∷ newline
      ∷ [])

  unfoldable pub retry_info_line : ℤ → Text
  retry_info_line d = concat (codes "error details: retry in " ∷ api.duration_text d ∷ newline ∷ [])

  -- The slice is nil where it is empty: `parse_details` only appends to it.
  unfoldable pub write_unknown : List Other → Text → Text
  write_unknown [] d = d
  write_unknown (x ∷ xs) d =
      d
      ++ concat (
          codes "error details: name = Unknown  desc = "
          ∷ words (map api.other_text (x ∷ xs))
          ∷ newline
          ∷ [])

  -- String
  unfoldable pub details_text : ErrDetails Other → Text
  unfolding write write_unknown
  details_text e =
      let d1 = write error_info_line e.error_info [] in
      let d2 = write bad_request_line e.bad_request d1 in
      let d3 = write precondition_failure_line e.precondition_failure d2 in
      let d4 = write quota_failure_line e.quota_failure d3 in
      let d5 = write request_info_line e.request_info d4 in
      let d6 = write resource_info_line e.resource_info d5 in
      let d7 = write retry_info_line e.retry_info d6 in
      let d8 = write_unknown e.unknown d7 in
      let d9 = write debug_info_line e.debug_info d8 in
      let d10 = write help_line e.help d9 in write localized_message_line e.localized_message d10

  -- The variable msg of `Error`.
  unfoldable pub headline : ApiError Err Other → Text
  headline a = elim a.http_err [
    | some h ↦ concat (codes "googleapi: Error " ∷ decimal h.code ∷ codes ": " ∷ h.message ∷ [])
    | none ↦ elim a.status [
      | none ↦ []
      | some st ↦ elim a.err [ some e ↦ api.error_text e | none ↦ st.message ]
    ]
  ]

  -- Error
  unfoldable pub error_string : ApiError Err Other → Text
  unfolding headline
  error_string a = trim_space (headline a ++ (newline ++ details_text a.details))

-- What `ExtractProtoMessage` uses of package proto. A `Value` is a value of the slice.
pub record Protos (Value : Type 0) : Type 1 where
  pub Message : Type 0
  -- elem.(proto.Message)
  pub as_message : Value → Option Message
  -- v.ProtoReflect().Type() == w.ProtoReflect().Type()
  pub same_type : Message → Message → Bool
  -- proto.Merge(v, w)
  pub merge : Message → Message → Message

module _ {Other : Type 0} (protos : Protos Other) where
  open protos use {Message}

  -- elem is a message of the type of v
  unfoldable pub matches : Message → Other → Option Message
  matches v elem = elim (protos.as_message elem) [
    | none ↦ none
    | some m ↦ if protos.same_type v m then some m else none
  ]

  unfoldable pub extract_loop : Message → List Other → Option Message
  unfolding matches
  extract_loop v [] = none
  extract_loop v (elem ∷ unknown) = elim (matches v elem) [
    | some m ↦ some (protos.merge v m)
    | none ↦ extract_loop v unknown
  ]

  -- The message afterwards, or `none` for ErrMessageNotFound. A nil message is `none`.
  unfoldable pub extract_proto_message : ErrDetails Other → Option Message → Option Message
  unfolding extract_loop
  extract_proto_message e none = none
  extract_proto_message e (some v) = extract_loop v e.unknown
