-- ===== src/Apierror/Printing/Extract.antt =====
-- Which message is extracted.
use gax_go.Prelude.{
  ◌≡◌, ◌⊎◌, inl, inr, refl, ap, List, [], ◌∷◌, ◌++◌, none, some, All, Option-cases, true, false,
  arith,
}
use gax_go.Apierror.Details.{ErrDetails}
use gax_go.Apierror.Printing.{Protos, matches, extract_loop, extract_proto_message}

module _ {Other : Type 0} (protos : Protos Other) where
  open protos use {Message}

  -- The value is a message of the type of `v`, or it is none.
  abbrev pub IsMessage : Message → Other → Message → Type 0
  IsMessage v x m = (protos.as_message x ≡ some m) × (protos.same_type v m ≡ true)

  abbrev pub IsOther : Message → Other → Type 0
  IsOther v x =
      (protos.as_message x ≡ none)
      ⊎ ((m : Message) × (protos.as_message x ≡ some m) × (protos.same_type v m ≡ false))

  matches-IsMessage :
      (v : Message) (x : Other) (m : Message) → matches protos v x ≡ some m → IsMessage v x m
  unfolding matches
  matches-IsMessage v x m e = ground arith

  matches-IsOther : (v : Message) (x : Other) → matches protos v x ≡ none → IsOther v x
  unfolding matches
  matches-IsOther v x e = elim (Option-cases (protos.as_message x)) [
    | inl n ↦ inl n
    | inr (m, n) ↦ inr (m, n, ground arith)
  ]

  -- The first value that is a message of the type of `v`, and what stands around it.
  abbrev pub First : Message → List Other → Message → Type 0
  First v values m =
      (before : List Other) × (elem : Other) × (after : List Other) × (values
        ≡ before ++ elem ∷ after)
      × All (IsOther v) before
      × IsMessage v elem m

  extract_loop_lem :
      (v : Message) (values : List Other)
      → ((m : Message) × First v values m
          × (extract_loop protos v values ≡ some (protos.merge v m)))
        ⊎ (All (IsOther v) values × (extract_loop protos v values ≡ none))
  unfolding extract_loop
  extract_loop_lem v [] = inr (tt, refl)
  extract_loop_lem v (x ∷ xs) = elim (Option-cases (matches protos v x)) [
    | inr (m, e) ↦
        inl (m, ([], x, xs, refl, tt, matches-IsMessage v x m e), rw (e, extract_loop) refl)
    | inl e ↦ elim (extract_loop_lem v xs) [
      | inl (m, (before, elem, after, split, all, found), q) ↦ inl (
        m,
        (x ∷ before, elem, after, ap (λ r. x ∷ r) split, (matches-IsOther v x e, all), found),
        rw (e, extract_loop) q,
      )
      | inr (all, q) ↦ inr ((matches-IsOther v x e, all), rw (e, extract_loop) q)
    ]
  ]

  -- The given message is merged with the first unknown detail that is a message of its type, and is
  -- not found exactly if there is none or it is nil.
  pub extract_proto_message_lem :
      (e : ErrDetails Other)
      → (extract_proto_message protos e none ≡ none)
        × ((v : Message)
            → ((m : Message) × First v e.unknown m
                × (extract_proto_message protos e (some v) ≡ some (protos.merge v m)))
              ⊎ (All (IsOther v) e.unknown × (extract_proto_message protos e (some v) ≡ none)))
  unfolding extract_proto_message
  extract_proto_message_lem e = (refl, λ v. extract_loop_lem v e.unknown)
