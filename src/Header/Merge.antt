-- ===== src/Header/Merge.antt =====
-- The two loops of `insertMetadata`: the values of each key, and the merged text.
use gax_go.Prelude.{
  ℕ, ◌-◌, ◌≡◌, refl, sym, ◌∙◌, List, [], ◌∷◌, ◌++◌, append_assoc, append-nil, none, arith,
  if◌then◌else◌, length, length-append, take, take-length_append, Bool-cases, inl, inr,
}
use gax_go.Prelude.Text.{Text, codes, text_eq, text_eq_iff, join}
use gax_go.Prelude.Dict.{get, NodupKeys}
use gax_go.Callctx.{Headers, values}
use gax_go.Callctx.Headers.{given, values-put}
use gax_go.Header.{x_goog, write_all, merge_headers, merge_keyvals}

-- Each value with a space behind it.
abbrev pub closed : List Text → Text
closed [] = []
closed (v ∷ vals) = v ++ (codes " " ++ closed vals)

pub closed-append : (us vs : List Text) → closed (us ++ vs) ≡ closed us ++ closed vs
closed-append [] vs = refl
closed-append (u ∷ us) vs = simp (closed-append us vs, append_assoc)

write_all-closed :
    (vals : List Text) (merged : Text) → write_all vals merged ≡ merged ++ closed vals
unfolding write_all
write_all-closed [] merged = sym (append-nil merged)
write_all-closed (v ∷ vals) merged = write_all-closed vals _ ∙ simp append_assoc

pub closed-join :
    (v : Text) (vals : List Text) → closed (v ∷ vals) ≡ join (codes " ") (v ∷ vals) ++ codes " "
closed-join v [] = refl
closed-join v (u ∷ vals) = rw (closed-join u vals) (simp append_assoc)

pub take_all_but_last : (s : Text) (c : ℕ) → take (length (s ++ c ∷ []) - 1) (s ++ c ∷ []) ≡ s
take_all_but_last s c =
    let e : length (s ++ c ∷ []) - 1 ≡ length s = omega (arith, length-append s (c ∷ [])) in
    rw e (take-length_append s (c ∷ []))

values_of_none : (h : Headers) (k : Text) → get h k ≡ none → values h k ≡ []
unfolding values
values_of_none h k e = rw (e, values) refl

values-cons :
    (j k : Text) (v : List Text) (h : Headers)
    → values ((j, v) ∷ h) k ≡ (if text_eq j k then v else values h k)
unfolding values get
values-cons j k v h = ground arith

pub merge_headers-values :
    (h out : Headers) (merged : Text) (k : Text)
    → NodupKeys h
    → values (merge_headers h out merged).0 k
      ≡ values out k ++ (if text_eq k x_goog then [] else values h k)
unfolding merge_headers
merge_headers-values [] out merged k nodup =
    unfold values get in ground (arith, append-nil (values out k))
merge_headers-values ((j, vals) ∷ h) out merged k (fresh, nodup) =
    merge_headers-values h _ _ k nodup
    ∙ ground (
      arith,
      values-put out j k (values out j ++ vals),
      values-cons j k vals h,
      text_eq_iff j x_goog,
      text_eq_iff k x_goog,
      text_eq_iff j k,
      values_of_none h k,
      append-nil (values out j ++ vals),
    )

pub merge_headers-merged :
    (h out : Headers) (merged : Text)
    → NodupKeys h
    → (merge_headers h out merged).1 ≡ merged ++ closed (values h x_goog)
unfolding merge_headers
merge_headers-merged [] out merged nodup = unfold values get in sym (append-nil merged)
merge_headers-merged ((j, vals) ∷ h) out merged (fresh, nodup) =
    merge_headers-merged h _ _ nodup
    ∙ ground (
      arith,
      values-cons j x_goog vals h,
      text_eq_iff j x_goog,
      values_of_none h x_goog,
      write_all-closed vals merged,
      append-nil (merged ++ closed vals),
    )

pub merge_keyvals-values :
    (keyvals : List Text) (out : Headers) (merged : Text) (k : Text)
    → values (merge_keyvals keyvals out merged).0 k ≡ values out k ++ given keyvals k
unfolding merge_keyvals
merge_keyvals-values [] out merged k = sym (append-nil _)
merge_keyvals-values (j ∷ []) out merged k = sym (append-nil _)
merge_keyvals-values (j ∷ v ∷ keyvals) out merged k =
    merge_keyvals-values keyvals _ _ k
    ∙ ground (
      arith,
      values-put out j k (values out j ++ v ∷ []),
      text_eq_iff j k,
      append_assoc (values out j) (v ∷ []) (given keyvals k),
    )

pub merge_keyvals-merged :
    (keyvals : List Text) (out : Headers) (merged : Text)
    → (merge_keyvals keyvals out merged).1 ≡ merged ++ closed (given keyvals x_goog)
unfolding merge_keyvals
merge_keyvals-merged [] out merged = sym (append-nil _)
merge_keyvals-merged (j ∷ []) out merged = sym (append-nil _)
merge_keyvals-merged (j ∷ v ∷ keyvals) out merged =
    merge_keyvals-merged keyvals _ _ ∙ elim (Bool-cases (text_eq j x_goog)) [
      | inl same ↦ rw same (simp append_assoc)
      | inr other ↦ rw other refl
    ]
