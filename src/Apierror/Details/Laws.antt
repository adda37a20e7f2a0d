-- ===== src/Apierror/Details/Laws.antt =====
-- What `parseDetails` keeps of its list.
use gax_go.Prelude.{
  List, [], ◌∷◌, ◌++◌, append_assoc, append-nil, Option, none, some, ◌≡◌, refl, sym, ◌∙◌,
}
use gax_go.Apierror.Details.{
  Detail, ErrDetails, ErrorInfo, FieldViolation, PreconditionViolation, QuotaViolation,
  ResourceInfo, RequestInfo, DebugInfo, Link, LocalizedMessage, no_details, add_detail, parse_loop,
  parse_details,
}
use gax_go.Backoff.{Duration}

-- The last element that `pick` accepts, and `old` if there is none.
abbrev pub last_or {ℓ κ} : {A : Type ℓ} {B : Type κ} → (A → Option B) → Option B → List A → Option B
last_or pick old [] = old
last_or pick old (a ∷ as') = last_or pick (elim (pick a) [ some b ↦ some b | none ↦ old ]) as'

-- The elements that `pick` accepts, in order.
abbrev pub all_of {ℓ κ} : {A : Type ℓ} {B : Type κ} → (A → Option B) → List A → List B
all_of pick [] = []
all_of pick (a ∷ as') = elim (pick a) [ some b ↦ b ∷ all_of pick as' | none ↦ all_of pick as' ]

module _ {Other : Type 0} where
  abbrev pub as_error_info : Detail Other → Option ErrorInfo
  as_error_info (Detail.error_info d) = some d
  as_error_info _ = none

  abbrev pub as_bad_request : Detail Other → Option (List FieldViolation)
  as_bad_request (Detail.bad_request d) = some d
  as_bad_request _ = none

  abbrev pub as_precondition_failure : Detail Other → Option (List PreconditionViolation)
  as_precondition_failure (Detail.precondition_failure d) = some d
  as_precondition_failure _ = none

  abbrev pub as_quota_failure : Detail Other → Option (List QuotaViolation)
  as_quota_failure (Detail.quota_failure d) = some d
  as_quota_failure _ = none

  abbrev pub as_retry_info : Detail Other → Option Duration
  as_retry_info (Detail.retry_info d) = some d
  as_retry_info _ = none

  abbrev pub as_resource_info : Detail Other → Option ResourceInfo
  as_resource_info (Detail.resource_info d) = some d
  as_resource_info _ = none

  abbrev pub as_request_info : Detail Other → Option RequestInfo
  as_request_info (Detail.request_info d) = some d
  as_request_info _ = none

  abbrev pub as_debug_info : Detail Other → Option DebugInfo
  as_debug_info (Detail.debug_info d) = some d
  as_debug_info _ = none

  abbrev pub as_help : Detail Other → Option (List Link)
  as_help (Detail.help d) = some d
  as_help _ = none

  abbrev pub as_localized_message : Detail Other → Option LocalizedMessage
  as_localized_message (Detail.localized_message d) = some d
  as_localized_message _ = none

  abbrev pub as_other : Detail Other → Option Other
  as_other (Detail.other d) = some d
  as_other _ = none

  -- A field that `add_detail` sets to what `pick` accepts ends as the last such element.
  parse_loop-last {ℓ} :
      {B : Type ℓ} (field : ErrDetails Other → Option B) (pick : Detail Other → Option B)
      → ((ed : ErrDetails Other) (d : Detail Other)
          → field (add_detail ed d) ≡ last_or pick (field ed) (d ∷ []))
      → (ed : ErrDetails Other) (ds : List (Detail Other))
      → field (parse_loop ed ds) ≡ last_or pick (field ed) ds
  unfolding parse_loop
  parse_loop-last field pick step ed [] = refl
  parse_loop-last field pick step ed (d ∷ ds) =
      parse_loop-last field pick step (add_detail ed d) ds ∙ rw (step ed d) refl

  parse_loop-unknown :
      (ed : ErrDetails Other) (ds : List (Detail Other))
      → (parse_loop ed ds).unknown ≡ ed.unknown ++ all_of as_other ds
  unfolding parse_loop add_detail
  parse_loop-unknown ed [] = sym (append-nil ed.unknown)
  parse_loop-unknown ed (Detail.other d ∷ ds) =
      parse_loop-unknown (add_detail ed (Detail.other d)) ds
      ∙ append_assoc ed.unknown (d ∷ []) (all_of as_other ds)
  parse_loop-unknown ed (Detail.error_info d ∷ ds) =
      parse_loop-unknown (add_detail ed (Detail.error_info d)) ds
  parse_loop-unknown ed (Detail.bad_request d ∷ ds) =
      parse_loop-unknown (add_detail ed (Detail.bad_request d)) ds
  parse_loop-unknown ed (Detail.precondition_failure d ∷ ds) =
      parse_loop-unknown (add_detail ed (Detail.precondition_failure d)) ds
  parse_loop-unknown ed (Detail.quota_failure d ∷ ds) =
      parse_loop-unknown (add_detail ed (Detail.quota_failure d)) ds
  parse_loop-unknown ed (Detail.retry_info d ∷ ds) =
      parse_loop-unknown (add_detail ed (Detail.retry_info d)) ds
  parse_loop-unknown ed (Detail.resource_info d ∷ ds) =
      parse_loop-unknown (add_detail ed (Detail.resource_info d)) ds
  parse_loop-unknown ed (Detail.request_info d ∷ ds) =
      parse_loop-unknown (add_detail ed (Detail.request_info d)) ds
  parse_loop-unknown ed (Detail.debug_info d ∷ ds) =
      parse_loop-unknown (add_detail ed (Detail.debug_info d)) ds
  parse_loop-unknown ed (Detail.help d ∷ ds) = parse_loop-unknown (add_detail ed (Detail.help d)) ds
  parse_loop-unknown ed (Detail.localized_message d ∷ ds) =
      parse_loop-unknown (add_detail ed (Detail.localized_message d)) ds

  error_info_step :
      (ed : ErrDetails Other) (d : Detail Other)
      → (add_detail ed d).error_info ≡ last_or as_error_info ed.error_info (d ∷ [])
  unfolding add_detail
  error_info_step ed (Detail.error_info d) = refl
  error_info_step ed d = refl

  bad_request_step :
      (ed : ErrDetails Other) (d : Detail Other)
      → (add_detail ed d).bad_request ≡ last_or as_bad_request ed.bad_request (d ∷ [])
  unfolding add_detail
  bad_request_step ed (Detail.bad_request d) = refl
  bad_request_step ed d = refl

  precondition_failure_step :
      (ed : ErrDetails Other) (d : Detail Other)
      → (add_detail ed d).precondition_failure
        ≡ last_or as_precondition_failure ed.precondition_failure (d ∷ [])
  unfolding add_detail
  precondition_failure_step ed (Detail.precondition_failure d) = refl
  precondition_failure_step ed d = refl

  quota_failure_step :
      (ed : ErrDetails Other) (d : Detail Other)
      → (add_detail ed d).quota_failure ≡ last_or as_quota_failure ed.quota_failure (d ∷ [])
  unfolding add_detail
  quota_failure_step ed (Detail.quota_failure d) = refl
  quota_failure_step ed d = refl

  retry_info_step :
      (ed : ErrDetails Other) (d : Detail Other)
      → (add_detail ed d).retry_info ≡ last_or as_retry_info ed.retry_info (d ∷ [])
  unfolding add_detail
  retry_info_step ed (Detail.retry_info d) = refl
  retry_info_step ed d = refl

  resource_info_step :
      (ed : ErrDetails Other) (d : Detail Other)
      → (add_detail ed d).resource_info ≡ last_or as_resource_info ed.resource_info (d ∷ [])
  unfolding add_detail
  resource_info_step ed (Detail.resource_info d) = refl
  resource_info_step ed d = refl

  request_info_step :
      (ed : ErrDetails Other) (d : Detail Other)
      → (add_detail ed d).request_info ≡ last_or as_request_info ed.request_info (d ∷ [])
  unfolding add_detail
  request_info_step ed (Detail.request_info d) = refl
  request_info_step ed d = refl

  debug_info_step :
      (ed : ErrDetails Other) (d : Detail Other)
      → (add_detail ed d).debug_info ≡ last_or as_debug_info ed.debug_info (d ∷ [])
  unfolding add_detail
  debug_info_step ed (Detail.debug_info d) = refl
  debug_info_step ed d = refl

  help_step :
      (ed : ErrDetails Other) (d : Detail Other)
      → (add_detail ed d).help ≡ last_or as_help ed.help (d ∷ [])
  unfolding add_detail
  help_step ed (Detail.help d) = refl
  help_step ed d = refl

  localized_message_step :
      (ed : ErrDetails Other) (d : Detail Other)
      → (add_detail ed d).localized_message
        ≡ last_or as_localized_message ed.localized_message (d ∷ [])
  unfolding add_detail
  localized_message_step ed (Detail.localized_message d) = refl
  localized_message_step ed d = refl

  -- Each of the ten known kinds is the last message of that kind in the list, or absent if there is
  -- none, and the other values are kept in their order.
  pub parse_details_lem :
      (ds : List (Detail Other))
      → let ed = parse_details ds in
        (ed.error_info ≡ last_or as_error_info none ds)
        × (ed.bad_request ≡ last_or as_bad_request none ds)
        × (ed.precondition_failure ≡ last_or as_precondition_failure none ds)
        × (ed.quota_failure ≡ last_or as_quota_failure none ds)
        × (ed.retry_info ≡ last_or as_retry_info none ds)
        × (ed.resource_info ≡ last_or as_resource_info none ds)
        × (ed.request_info ≡ last_or as_request_info none ds)
        × (ed.debug_info ≡ last_or as_debug_info none ds)
        × (ed.help ≡ last_or as_help none ds)
        × (ed.localized_message ≡ last_or as_localized_message none ds)
        × (ed.unknown ≡ all_of as_other ds)
  unfolding parse_details
  parse_details_lem ds = (
    parse_loop-last (λ ed. ed.error_info) as_error_info error_info_step no_details ds,
    parse_loop-last (λ ed. ed.bad_request) as_bad_request bad_request_step no_details ds,
    parse_loop-last (λ ed. ed.precondition_failure) as_precondition_failure
        precondition_failure_step no_details ds,
    parse_loop-last (λ ed. ed.quota_failure) as_quota_failure quota_failure_step no_details ds,
    parse_loop-last (λ ed. ed.retry_info) as_retry_info retry_info_step no_details ds,
    parse_loop-last (λ ed. ed.resource_info) as_resource_info resource_info_step no_details ds,
    parse_loop-last (λ ed. ed.request_info) as_request_info request_info_step no_details ds,
    parse_loop-last (λ ed. ed.debug_info) as_debug_info debug_info_step no_details ds,
    parse_loop-last (λ ed. ed.help) as_help help_step no_details ds,
    parse_loop-last (λ ed. ed.localized_message) as_localized_message localized_message_step
        no_details ds,
    parse_loop-unknown no_details ds,
  )
