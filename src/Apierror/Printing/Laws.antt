-- ===== src/Apierror/Printing/Laws.antt =====
-- The text of an error.
use gax_go.Prelude.{
  ℕ, ◌≡◌, ◌≢◌, ◌↔◌, refl, sym, List, [], ◌∷◌, ◌++◌, append-nil, Option, none, some, Bool, arith,
  if◌then◌else◌, reverse,
}
use gax_go.Prelude.Text.{Text, codes, is_space, concat, newline}
use gax_go.Prelude.Trim.{
  IsBlank, IsFlush, trim_space_lem, trim_space-newline, IsClosed, IsClosed-append, IsFlush-reverse,
}
use gax_go.Apierror.Details.{ErrDetails}
use mathlib.Core.Path.{subst}
use gax_go.Apierror.Parse.{parse_error, parse_http_details}
use gax_go.Apierror.Codes.{to_code}
use gax_go.Apierror.Types.{ApiError, ErrorApi, HttpError}
use gax_go.Apierror.Printing.{
  write, write_unknown, details_text, headline, error_string, decimal, error_info_line,
  bad_request_line, precondition_failure_line, quota_failure_line, request_info_line,
  resource_info_line, retry_info_line, debug_info_line, help_line, localized_message_line,
}

-- A line is never empty.
abbrev IsLine : {A : Type 0} → (A → Text) → Type 0
IsLine {A} line = (x : A) → (s : Text) × (line x ≡ b'e' ∷ s)

append_cons-ne-nil : (d : Text) (c : ℕ) (s : Text) → d ++ c ∷ s ≢ []
append_cons-ne-nil [] c s = ground arith
append_cons-ne-nil (x ∷ d) c s = ground arith

concat-ne-nil : {A : Type 0} (x : A) (xs : List A) → x ∷ xs ≢ []
concat-ne-nil x xs = ground arith

write_empty :
    {A : Type 0} (line : A → Text) (o : Option A) (d : Text)
    → IsLine line
    → (write line o d ≡ []) ↔ ((o ≡ none) × (d ≡ []))
unfolding write
write_empty line none d h = ((λ e. (refl, e)), λ (_, e). e)
write_empty line (some x) d h = let (s, e) = h x in ground (arith, append_cons-ne-nil d b'e' s)

module _ (api : ErrorApi) where
  open api use {Err, Other}

  write_unknown_empty :
      (us : List Other) (d : Text) → (write_unknown api us d ≡ []) ↔ ((us ≡ []) × (d ≡ []))
  unfolding write_unknown
  write_unknown_empty [] d = ((λ e. (refl, e)), λ (_, e). e)
  write_unknown_empty (x ∷ us) d =
      ((λ e. absurd (append_cons-ne-nil d b'e' _ e)), λ (e, _). absurd (concat-ne-nil x us e))

  -- No detail is there.
  abbrev pub IsBare : ErrDetails Other → Type 0
  IsBare e =
      (e.error_info ≡ none)
      × (e.bad_request ≡ none)
      × (e.precondition_failure ≡ none)
      × (e.quota_failure ≡ none)
      × (e.request_info ≡ none)
      × (e.resource_info ≡ none)
      × (e.retry_info ≡ none)
      × (e.unknown ≡ [])
      × (e.debug_info ≡ none)
      × (e.help ≡ none)
      × (e.localized_message ≡ none)

  details_text_empty : (e : ErrDetails Other) → (details_text api e ≡ []) ↔ IsBare e
  unfolding details_text error_info_line bad_request_line precondition_failure_line
      quota_failure_line request_info_line resource_info_line retry_info_line debug_info_line
      help_line localized_message_line
  details_text_empty e =
      let d1 = write (error_info_line api) e.error_info [] in
      let w1 = write_empty (error_info_line api) e.error_info [] (λ x. (_, refl)) in
      let d2 = write bad_request_line e.bad_request d1 in
      let w2 = write_empty bad_request_line e.bad_request d1 (λ x. (_, refl)) in
      let d3 = write precondition_failure_line e.precondition_failure d2 in
      let w3 = write_empty precondition_failure_line e.precondition_failure d2 (λ x. (_, refl)) in
      let d4 = write quota_failure_line e.quota_failure d3 in
      let w4 = write_empty quota_failure_line e.quota_failure d3 (λ x. (_, refl)) in
      let d5 = write request_info_line e.request_info d4 in
      let w5 = write_empty request_info_line e.request_info d4 (λ x. (_, refl)) in
      let d6 = write resource_info_line e.resource_info d5 in
      let w6 = write_empty resource_info_line e.resource_info d5 (λ x. (_, refl)) in
      let d7 = write (retry_info_line api) e.retry_info d6 in
      let w7 = write_empty (retry_info_line api) e.retry_info d6 (λ x. (_, refl)) in
      let d8 = write_unknown api e.unknown d7 in
      let w8 = write_unknown_empty e.unknown d7 in
      let d9 = write debug_info_line e.debug_info d8 in
      let w9 = write_empty debug_info_line e.debug_info d8 (λ x. (_, refl)) in
      let d10 = write help_line e.help d9 in
      let w10 = write_empty help_line e.help d9 (λ x. (_, refl)) in
      let w11 = write_empty localized_message_line e.localized_message d10 (λ x. (_, refl)) in
      (
        (λ h.
            let (a11, h11) = w11.0 h in
            let (a10, h10) = w10.0 h11 in
            let (a9, h9) = w9.0 h10 in
            let (a8, h8) = w8.0 h9 in
            let (a7, h7) = w7.0 h8 in
            let (a6, h6) = w6.0 h7 in
            let (a5, h5) = w5.0 h6 in
            let (a4, h4) = w4.0 h5 in
            let (a3, h3) = w3.0 h4 in
            let (a2, h2) = w2.0 h3 in
            let (a1, h1) = w1.0 h2 in (a1, a2, a3, a4, a5, a6, a7, a8, a9, a10, a11)),
        λ (a1, a2, a3, a4, a5, a6, a7, a8, a9, a10, a11). w11.1 (
          a11,
          w10.1 (
            a10,
            w9.1 (
              a9,
              w8.1 (
                a8,
                w7.1 (a7, w6.1 (a6, w5.1 (a5, w4.1 (a4, w3.1 (a3, w2.1 (a2, w1.1 (a1, refl))))))),
              ),
            ),
          ),
        ),
      )

  -- The headline of an HTTP error.
  abbrev pub http_headline : HttpError → Text
  http_headline h =
      concat (codes "googleapi: Error " ∷ decimal h.code ∷ codes ": " ∷ h.message ∷ [])

  -- The text of an error is its headline and the lines of its details without the whitespace at both
  -- ends.
  error_string_lem :
      (a : ApiError Err Other)
      → (l : Text) × (r : Text) × (headline api a ++ (newline ++ details_text api a.details)
          ≡ l ++ (error_string api a ++ r))
        × IsBlank l
        × IsBlank r
        × IsFlush (error_string api a)
        × IsFlush (reverse (error_string api a))
  unfolding error_string
  error_string_lem a = trim_space_lem (headline api a ++ (newline ++ details_text api a.details))

  http_headline-IsClosed : (h : HttpError) → IsClosed h.message → IsClosed (http_headline h)
  http_headline-IsClosed h closed =
      IsClosed-append (codes "googleapi: Error ")
        (decimal h.code ++ (codes ": " ++ (h.message ++ [])))
        (IsClosed-append (decimal h.code) (codes ": " ++ (h.message ++ [])) (
          IsClosed-append (codes ": ") (h.message ++ [])
            (subst IsClosed (sym (append-nil h.message)) closed)))

  error_string-http :
      (a : ApiError Err Other) (h : HttpError)
      → a.http_err ≡ some h
      → IsBare a.details
      → IsClosed h.message
      → error_string api a ≡ http_headline h
  unfolding error_string headline is_space
  error_string-http a h e bare closed =
      rw (e, headline, (details_text_empty a.details).1 bare)
        (trim_space-newline b'g' _ refl
          (IsFlush-reverse (http_headline h) (http_headline-IsClosed h closed)))

  -- An error that is no status and is or wraps an HTTP error, whose body has no details and whose
  -- message is not empty and does not end with whitespace, reads "googleapi: Error CODE: MESSAGE" once it is parsed,
  -- wrapped or not.
  pub error_string-parse_error :
      (err : Err) (h : HttpError) (wrap : Bool)
      → api.from_status err ≡ none
      → api.as_http err ≡ some h
      → IsBare (parse_http_details api h)
      → IsClosed h.message
      → (a : ApiError Err Other) × (parse_error api (some err) wrap ≡ some a)
        × (error_string api a ≡ http_headline h)
  unfolding parse_error
  error_string-parse_error err h wrap e f bare closed =
      let a : ApiError Err Other = record {
        err = if wrap then some err else none;
        status = some (record { code = to_code h.code; message = h.message; details = [] });
        http_err = some h;
        details = parse_http_details api h;
      } in
      (a, ground arith, error_string-http a h refl bare closed)
