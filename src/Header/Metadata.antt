-- ===== src/Header/Metadata.antt =====
-- What `insertMetadata` sends for each key.
use gax_go.Prelude.{
  ℕ, ◌≡◌, refl, sym, ◌∙◌, ap, List, [], ◌∷◌, ◌++◌, append_assoc, append-nil, Option, none, some,
  true, false, arith, if◌then◌else◌, Bool-cases, inl, inr,
}
use gax_go.Prelude.Text.{Text, codes, text_eq, text_eq_iff, join}
use gax_go.Prelude.Dict.{put, NodupKeys}
use gax_go.Context.{Context}
use gax_go.Callctx.{Headers, Heap, IsRange, values, odd_length, headers_from_context}
use gax_go.Callctx.Headers.{given, values-put}
use gax_go.Header.{x_goog, merge_headers, merge_keyvals, put_merged, insert_metadata}
use gax_go.Header.Merge.{
  closed, closed-append, closed-join, take_all_but_last, merge_headers-values, merge_headers-merged,
  merge_keyvals-values, merge_keyvals-merged,
}

-- The values of a key in the result, from those of the metadata, those of the context's headers and
-- those given.
abbrev pub sent : Text → List Text → List Text → List Text
sent k old [] = old
sent k old (v ∷ new) = if text_eq k x_goog then join (codes " ") (v ∷ new) ∷ [] else old ++ v ∷ new

put_merged-append :
    (out : Headers) (s : Text) (c : ℕ) → put_merged out (s ++ c ∷ []) ≡ put out x_goog (s ∷ [])
unfolding put_merged
put_merged-append out [] c = refl
put_merged-append out (d ∷ s) c = ap (λ r. put out x_goog (r ∷ [])) (take_all_but_last (d ∷ s) c)

values-put_merged :
    (out : Headers) (v : Text) (vals : List Text) (k : Text)
    → values (put_merged out (closed (v ∷ vals))) k
      ≡ (if text_eq k x_goog then join (codes " ") (v ∷ vals) ∷ [] else values out k)
values-put_merged out v vals k =
    rw (closed-join v vals, put_merged-append out (join (codes " ") (v ∷ vals)) b' ')
      (values-put out x_goog k (join (codes " ") (v ∷ vals) ∷ []) ∙ swap)
  where
    swap :
        (if text_eq x_goog k then join (codes " ") (v ∷ vals) ∷ [] else values out k)
        ≡ (if text_eq k x_goog then join (codes " ") (v ∷ vals) ∷ [] else values out k)
    swap = ground (arith, text_eq_iff x_goog k, text_eq_iff k x_goog)

sent_plain :
    (k : Text) (old new : List Text) → text_eq k x_goog ≡ false → sent k old new ≡ old ++ new
sent_plain k old [] h = sym (append-nil old)
sent_plain k old (v ∷ new) h = rw h refl

append_eq_nil : {A : Type 0} (xs ys : List A) → xs ++ ys ≡ [] → ys ≡ []
append_eq_nil [] ys e = e
append_eq_nil (x ∷ xs) ys e = cc

-- The two loops, and the end, over a map `h` and metadata `out`.
module _ (h out : Headers) (keyvals : List Text) (nodup : NodupKeys h) where
  abbrev out2 : Headers
  out2 = (merge_keyvals keyvals (merge_headers h out []).0 (merge_headers h out []).1).0

  abbrev new_values : Text → List Text
  new_values k = values h k ++ given keyvals k

  merged_lem :
      (merge_keyvals keyvals (merge_headers h out []).0 (merge_headers h out []).1).1
      ≡ closed (new_values x_goog)
  merged_lem =
      merge_keyvals-merged keyvals _ _
      ∙ rw (merge_headers-merged h out [] nodup) (sym (closed-append (values h x_goog) _))

  values-out2 :
      (k : Text)
      → values out2 k
        ≡ (values out k ++ (if text_eq k x_goog then [] else values h k)) ++ given keyvals k
  values-out2 k =
      merge_keyvals-values keyvals _ _ k ∙ rw (merge_headers-values h out [] k nodup) refl

  values-out2_special :
      (k : Text) → text_eq k x_goog ≡ true → new_values x_goog ≡ [] → values out2 k ≡ values out k
  values-out2_special k same e =
      let key : k ≡ x_goog = (text_eq_iff k x_goog).0 same in
      let absent : given keyvals k ≡ [] = rw key (append_eq_nil (values h x_goog) _ e) in
      values-out2 k ∙ rw (same, absent) (append-nil _ ∙ append-nil _)

  values-out2_plain :
      (k : Text) → text_eq k x_goog ≡ false → values out2 k ≡ values out k ++ new_values k
  values-out2_plain k other = values-out2 k ∙ rw other (append_assoc (values out k) _ _)

  special :
      (k : Text)
      → text_eq k x_goog ≡ true
      → (new : List Text) → new_values x_goog ≡ new
      → values (put_merged out2 (closed new)) k ≡ sent k (values out k) new
  special k same [] e = unfold put_merged in values-out2_special k same e
  special k same (v ∷ new) e = values-put_merged out2 v new k ∙ rw same refl

  plain :
      (k : Text)
      → text_eq k x_goog ≡ false
      → (new : List Text) → values (put_merged out2 (closed new)) k ≡ values out k ++ new_values k
  plain k other [] = unfold put_merged in values-out2_plain k other
  plain k other (v ∷ new) = values-put_merged out2 v new k ∙ rw other (values-out2_plain k other)

  values-merged :
      (k : Text)
      → values (put_merged out2 (closed (new_values x_goog))) k
        ≡ sent k (values out k) (new_values k)
  values-merged k = elim (Bool-cases (text_eq k x_goog)) [
    | inl same ↦
        let key : k ≡ x_goog = (text_eq_iff k x_goog).0 same in
        special k same (new_values x_goog) refl
        ∙ ap (λ (j : Text). sent k (values out k) (new_values j)) (sym key)
    | inr other ↦
        plain k other (new_values x_goog) ∙ sym (sent_plain k (values out k) (new_values k) other)
  ]

-- The metadata that the outgoing context has.
abbrev pub outgoing_metadata : Option Headers → Headers
outgoing_metadata none = []
outgoing_metadata (some md) = md

values-range :
    (range : Headers → Headers) (h : Headers) (k : Text)
    → IsRange range
    → values (range h) k ≡ values h k
unfolding values
values-range range h k law = ground (arith, law.same h k)

-- With a value for every key, and whatever the order in which maps are visited: a key has its
-- metadata values, then those of the context's headers, then those given. Only x-goog-api-client
-- has, if there is any new value, one value: the new ones joined by spaces, without those of the
-- metadata.
pub insert_metadata_lem :
    (range : Headers → Headers) (heap : Heap) (outgoing : Option Headers) (ctx : Context)
    (keyvals : List Text)
    → IsRange range
    → NodupKeys (headers_from_context heap ctx)
    → odd_length keyvals ≡ false
    → (md : Headers) × (insert_metadata range heap outgoing ctx keyvals ≡ some md)
      × ((k : Text)
          → values md k
            ≡ sent k
                (values (outgoing_metadata outgoing) k)
                (values (headers_from_context heap ctx) k ++ given keyvals k))
unfolding insert_metadata
insert_metadata_lem range heap outgoing ctx keyvals law nodup even =
    let headers = headers_from_context heap ctx in
    let h = range headers in
    let out : Headers = outgoing_metadata outgoing in
    let fresh : NodupKeys h = law.nodup headers nodup in
    (
      put_merged (out2 h out keyvals fresh) (closed (new_values h out keyvals fresh x_goog)),
      rw even (
          ap (λ m. some (put_merged (out2 h out keyvals fresh) m))
            (merged_lem h out keyvals fresh)),
      λ k.
          values-merged h out keyvals fresh k
          ∙ ap (λ vs. sent k (values out k) (vs ++ given keyvals k))
              (values-range range headers k law),
    )
