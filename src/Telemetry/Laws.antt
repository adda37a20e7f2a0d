-- ===== src/Telemetry/Laws.antt =====
-- What the telemetry of a call says about its error.
use gax_go.Prelude.{
  ℕ, zero, suc, ◌<◌, ◌≡◌, ◌≢◌, ◌↔◌, ◌⊎◌, refl, sym, ap, ◌∙◌, List, [], ◌∷◌, Option, none, some,
  Bool, true, false, if◌then◌else◌, arith, ◌&&◌, not, ◌==◌, ltb, Bool-cases, Option-cases, inl, inr,
}
use gax_go.Prelude.Text.{Text, codes, itoa, itoa_nonempty, text_eq}
use gax_go.Prelude.Int.{pos, pos_part}
use gax_go.Code
use gax_go.Apierror.Types.{Status, HttpError, ApiError, ErrorApi}
use gax_go.Apierror.Parse.{
  parse_error, parse_http_details, reason, domain, metadata, message, http_code,
}
use gax_go.Apierror.Details.{parse_details, ErrorInfo}
use gax_go.Telemetry.{grpc_code_to_status_string, code_to_str}
use gax_go.Telemetry.Errors.{
  Inspect, extract_telemetry_error_info, calculated_type, is_opaque, rpc_code, refine_type,
  refine_message, raw_message,
}

-- The position of a string in a list.
index : List Text → Text → ℕ
index [] s = 0
index (t ∷ ts) s = if text_eq t s then 0 else suc (index ts s)

-- The test holds at every number below a bound.
below : (ℕ → Bool) → ℕ → Bool
below p zero = true
below p (suc n) = p n && below p n

below_sound : (p : ℕ → Bool) (n c : ℕ) → below p n ≡ true → c < n → p c ≡ true
unfolding below
below_sound p zero c h k = absurd (omega arith)
below_sound p (suc n) c h k = elim (Bool-cases (c == n)) [
  | inl e ↦ ground arith
  | inr e ↦ below_sound p n c (ground arith) (ground arith)
]

index-code : (c : ℕ) → c < 17 → index code_to_str (grpc_code_to_status_string c) ≡ c
unfolding below index text_eq grpc_code_to_status_string
index-code c h =
    ground
      (arith, below_sound (λ c. index code_to_str (grpc_code_to_status_string c) == c) 17 c refl h)

-- Two of the 17 codes of gRPC have the same string exactly if they are the same.
grpc_code_to_status_string-inj :
    (c d : ℕ)
    → c < 17
    → d < 17
    → (grpc_code_to_status_string c ≡ grpc_code_to_status_string d) ↔ (c ≡ d)
grpc_code_to_status_string-inj c d h k = (
  (λ e. sym (index-code c h) ∙ ap (index code_to_str) e ∙ index-code d k),
  ap grpc_code_to_status_string,
)

is_empty : Text → Bool
is_empty [] = true
is_empty (c ∷ s) = false

code_string_nonempty : (c : ℕ) → is_empty (grpc_code_to_status_string c) ≡ false
unfolding below is_empty grpc_code_to_status_string
code_string_nonempty c = elim (Bool-cases (ltb c 17)) [
  | inl h ↦ ground (
    arith,
    below_sound (λ c. not (is_empty (grpc_code_to_status_string c))) 17 c refl (ground arith),
  )
  | inr h ↦ ground arith
]

-- fmt gives every type a name.
pub record IsNamed {Err : Type 0} (ins : Inspect Err) : Type 0 where
  pub named : (e : Err) → ins.type_name e ≢ []

module _ (api : ErrorApi) (ins : Inspect api.Err) (ctx_err : Option api.Err) where
  -- The context has ended with an error of a kind.
  abbrev pub Ends : (api.Err → Bool) → Type 0
  Ends kind = (e : api.Err) × (ctx_err ≡ some e) × (kind e ≡ true)

  calculated_nonempty : IsNamed ins → (e : api.Err) → calculated_type api ins ctx_err e ≢ []
  unfolding calculated_type is_empty
  calculated_nonempty named e =
      ground (arith, IsNamed.named named e, code_string_nonempty (rpc_code api ins e))

  refined_nonempty : (a : ApiError api.Err api.Other) (s : Text) → s ≢ [] → refine_type a s ≢ []
  unfolding refine_type
  refined_nonempty a s h = ground (arith, itoa_nonempty (pos_part (http_code a)))

  -- The error type is empty exactly for a call without an error, given that every type has a name.
  pub extract_error_type-empty :
      (err : Option api.Err)
      → IsNamed ins
      → ((extract_telemetry_error_info api ins ctx_err err).error_type ≡ []) ↔ (err ≡ none)
  unfolding extract_telemetry_error_info
  extract_error_type-empty none named = ground arith
  extract_error_type-empty (some e) named = elim (Option-cases (parse_error api (some e) false)) [
    | inl n ↦ ground (arith, calculated_nonempty named e)
    | inr (a, n) ↦ ground (
      arith,
      refined_nonempty a (calculated_type api ins ctx_err e) (calculated_nonempty named e),
    )
  ]

  -- An HTTP error with a positive code and no reason is reported under its code, with the message
  -- of the response even where that is empty.
  extract_http :
      (err : api.Err) (h : HttpError) (n : ℕ)
      → api.from_status err ≡ none
      → api.as_http err ≡ some h
      → h.code ≡ pos (suc n)
      → (parse_http_details api h).error_info ≡ none
      → let i = extract_telemetry_error_info api ins ctx_err (some err) in
        (i.error_type ≡ itoa (suc n))
        × (i.status_message ≡ h.message)
        × (i.status_code ≡ grpc_code_to_status_string (ins.context_code err))
        × (i.domain ≡ [])
        × (i.metadata ≡ [])
  unfolding extract_telemetry_error_info rpc_code refine_type refine_message parse_error reason
      domain metadata message http_code
  extract_http err h n s a c d = ground arith

  -- A gRPC status error with a reason is reported under that reason, with the domain and the
  -- metadata beside it; the status code stays that of gRPC.
  extract_reason :
      (err : api.Err) (st : Status api.Other) (info : ErrorInfo) (c : ℕ) (s : Text)
      → api.from_status err ≡ some st
      → (parse_details st.details).error_info ≡ some info
      → info.reason ≡ c ∷ s
      → extract_telemetry_error_info api ins ctx_err (some err) ≡ record {
        error_type = info.reason;
        status_code = grpc_code_to_status_string st.code;
        status_message = st.message;
        domain = info.domain;
        metadata = info.metadata;
      }
  unfolding extract_telemetry_error_info rpc_code raw_message refine_type refine_message parse_error
      reason domain metadata message http_code
  extract_reason err st info c s e d r = ground arith

  -- A gRPC status error without a reason is reported as a timeout or a cancellation of the client
  -- if the context says so, else by its status code, or by its type if the code is Unknown or
  -- Internal.
  pub extract_status :
      (err : api.Err) (st : Status api.Other)
      → api.from_status err ≡ some st
      → (parse_details st.details).error_info ≡ none
      → let i = extract_telemetry_error_info api ins ctx_err (some err) in
        (i.status_code ≡ grpc_code_to_status_string st.code)
        × (i.status_message ≡ st.message)
        × (Ends ins.is_deadline_exceeded → i.error_type ≡ codes "CLIENT_TIMEOUT")
        × (¬ (Ends ins.is_deadline_exceeded)
            → Ends ins.is_canceled
            → i.error_type ≡ codes "CLIENT_CANCELLED")
        × (¬ (Ends ins.is_deadline_exceeded)
            → ¬ (Ends ins.is_canceled)
            → (st.code ≡ Code.unknown) ⊎ (st.code ≡ Code.internal)
            → i.error_type ≡ ins.type_name err)
        × (¬ (Ends ins.is_deadline_exceeded)
            → ¬ (Ends ins.is_canceled)
            → st.code ≢ Code.unknown
            → st.code ≢ Code.internal
            → i.error_type ≡ i.status_code)
  unfolding extract_telemetry_error_info rpc_code raw_message refine_type refine_message parse_error
      reason domain metadata message http_code calculated_type is_opaque
  extract_status err st e d = ground arith
