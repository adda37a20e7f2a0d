-- ===== src/Tests/Errors.antt =====
-- Package apierror.
use gax_go.Prelude.{
  ℕ, zero, ◌≡◌, ◌↔◌, ◌⊎◌, refl, List, [], ◌∷◌, none, some, true, All, if◌then◌else◌, ltb, ◌==◌, ◌%◌,
}
use gax_go.Prelude.Int.{pos, negsuc, ◌≤ℤ◌}
use gax_go.Prelude.Text.{codes, itoa, is_space}
use gax_go.Code
use gax_go.Apierror.Codes.{to_code, to_code_lem}
use gax_go.Apierror.Details.{Detail, ErrDetails, ErrorInfo, parse_details, no_details}
use gax_go.Apierror.Details.Laws.{
  last_or, all_of, as_error_info, as_bad_request, as_precondition_failure, as_quota_failure,
  as_retry_info, as_resource_info, as_request_info, as_debug_info, as_help, as_localized_message,
  as_other, parse_details_lem,
}
use gax_go.Apierror.Types.{Status, HttpError, ApiError}
use gax_go.Apierror.Parse.{parse_error, parse_http_details}
use gax_go.Apierror.Parse.Laws.{Parsed, Reads, parse_error_lem}
use gax_go.Apierror.Printing.{Protos, extract_proto_message, error_string, decimal}
use gax_go.Apierror.Printing.Laws.{error_string-parse_error}
use gax_go.Apierror.Printing.Extract.{First, IsOther, extract_proto_message_lem}
use gax_go.Tests.Setup.{TestErr, http, api}

abbrev info : ErrorInfo
info = record { reason = codes "QUOTA"; domain = codes "example.com"; metadata = [] }

abbrev two_details : List (Detail ℕ)
two_details = Detail.error_info info ∷ Detail.other 3 ∷ []

parse_details_lem_example :
    let ed = parse_details two_details in
    (ed.error_info ≡ last_or as_error_info none two_details)
    × (ed.bad_request ≡ last_or as_bad_request none two_details)
    × (ed.precondition_failure ≡ last_or as_precondition_failure none two_details)
    × (ed.quota_failure ≡ last_or as_quota_failure none two_details)
    × (ed.retry_info ≡ last_or as_retry_info none two_details)
    × (ed.resource_info ≡ last_or as_resource_info none two_details)
    × (ed.request_info ≡ last_or as_request_info none two_details)
    × (ed.debug_info ≡ last_or as_debug_info none two_details)
    × (ed.help ≡ last_or as_help none two_details)
    × (ed.localized_message ≡ last_or as_localized_message none two_details)
    × (ed.unknown ≡ all_of as_other two_details)
parse_details_lem_example = parse_details_lem two_details

abbrev not_found : HttpError
not_found = record { code = pos 404; message = codes "gone"; body = [] }

parse_error_lem_example :
    ((st : Status ℕ) × (api.from_status (http not_found) ≡ some st)
      × Parsed api (http not_found) true st (negsuc zero) st.message (parse_details st.details))
    ⊎ ((h : HttpError) × (details : ErrDetails ℕ) × (api.from_status (http not_found) ≡ none)
        × (api.as_http (http not_found) ≡ some h)
        × Reads api (http not_found) h.body details
        × Parsed api
            (http not_found)
            true
            (record { code = to_code h.code; message = h.message; details = [] })
            h.code
            h.message
            details)
    ⊎ ((api.from_status (http not_found) ≡ none)
        × (api.as_http (http not_found) ≡ none)
        × (parse_error api (some (http not_found)) true ≡ none))
parse_error_lem_example = parse_error_lem api (http not_found) true

error_string-parse_error_example :
    (a : ApiError TestErr ℕ) × (parse_error api (some (http not_found)) true ≡ some a)
    × (error_string api a ≡ codes "googleapi: Error 404: gone")
unfolding parse_http_details itoa is_space decimal
error_string-parse_error_example =
    error_string-parse_error api (http not_found) not_found true refl refl
      (refl, refl, refl, refl, refl, refl, refl, refl, refl, refl, refl) refl

-- A message is a number, of the type of its last digit, and the values below 10 are no messages.
abbrev protos : Protos ℕ
protos = record {
  Message = ℕ;
  as_message = λ n. if ltb n 10 then none else some n;
  same_type = λ m n. m % 10 == n % 10;
  merge = λ m n. n;
}

extract_proto_message_lem_example :
    let e : ErrDetails ℕ = record no_details { unknown = 3 ∷ 42 ∷ 13 ∷ [] } in
    (extract_proto_message protos e none ≡ none)
    × ((v : ℕ)
        → ((m : ℕ) × First protos v (3 ∷ 42 ∷ 13 ∷ []) m
            × (extract_proto_message protos e (some v) ≡ some m))
          ⊎ (All (IsOther protos v) (3 ∷ 42 ∷ 13 ∷ [])
              × (extract_proto_message protos e (some v) ≡ none)))
extract_proto_message_lem_example =
    extract_proto_message_lem protos (record no_details { unknown = 3 ∷ 42 ∷ 13 ∷ [] })

to_code_lem_example :
    let c = pos 502 in
    ((to_code c ≡ Code.ok) ↔ ((pos 200 ≤ℤ c) × (c ≤ℤ pos 299)))
    × ((to_code c ≡ Code.unknown)
        ↔ ((¬ ((pos 200 ≤ℤ c) × (c ≤ℤ pos 299))) × (¬ ((pos 400 ≤ℤ c) × (c ≤ℤ pos 599)))))
    × (((to_code c ≡ Code.internal)
          ⊎ (to_code c ≡ Code.unimplemented)
          ⊎ (to_code c ≡ Code.unavailable)
          ⊎ (to_code c ≡ Code.deadline_exceeded))
        ↔ ((pos 500 ≤ℤ c) × (c ≤ℤ pos 599)))
to_code_lem_example = to_code_lem (pos 502)
