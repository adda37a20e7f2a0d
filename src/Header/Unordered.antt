-- ===== src/Header/Unordered.antt =====
-- Metadata without the order of its keys.
use mathlib.Core.Path.{subst}
use mathlib.Core.Quot.{Quot}
use mathlib.Core.Quot
use gax_go.Prelude.{
  ◌≡◌, refl, sym, ◌∙◌, ap, arith, List, [], ◌∷◌, ◌++◌, Bool, Option, none, some, false, true,
  Bool-cases, inl, inr,
}
use gax_go.Prelude.Text.{Text, text_eq, text_eq_iff}
use gax_go.Prelude.Dict.{NodupKeys, get, put, get-put}
use gax_go.Context.{Context}
use gax_go.Callctx.{Headers, Heap, values, odd_length, headers_from_context, IsRange}
use gax_go.Header.{
  Outgoing, build_headers, insert_metadata, merge_headers, merge_keyvals, put_merged, x_goog,
}
use gax_go.Header.Merge.{closed, merge_headers-merged}

-- Two maps have the same keys, and the same values, in the same order, under each.
abbrev pub SameMap : Headers → Headers → Type 0
SameMap md md' = (k : Text) → get md k ≡ get md' k

-- A map of metadata, whatever the order in which its keys are visited.
abbrev pub Unordered : Type 0
Unordered = Quot SameMap

-- What a call gives, a panic being `none`.
abbrev pub unordered : Option Headers → Option Unordered
unordered none = none
unordered (some md) = some (Quot.mk md)

values-SameMap : (m m' : Headers) → SameMap m m' → (k : Text) → values m k ≡ values m' k
unfolding values
values-SameMap m m' same k =
    ap (λ (o : Option (List Text)). elim o [ none ↦ [] | some v ↦ v ]) (same k)

put-SameMap :
    (m m' : Headers) (j : Text) (v v' : List Text)
    → SameMap m m'
    → v ≡ v'
    → SameMap (put m j v) (put m' j v')
put-SameMap m m' j v v' same e k = rw (get-put m j k v, get-put m' j k v', e, same k) refl

merge_keyvals-SameMap :
    (keyvals : List Text) (m m' : Headers) (merged : Text)
    → SameMap m m'
    → SameMap (merge_keyvals keyvals m merged).0 (merge_keyvals keyvals m' merged).0
      × ((merge_keyvals keyvals m merged).1 ≡ (merge_keyvals keyvals m' merged).1)
unfolding merge_keyvals
merge_keyvals-SameMap [] m m' merged same = (same, refl)
merge_keyvals-SameMap (j ∷ []) m m' merged same = (same, refl)
merge_keyvals-SameMap (j ∷ v ∷ keyvals) m m' merged same =
    merge_keyvals-SameMap keyvals _ _ _
      (put-SameMap m m' j _ _ same (ap (λ l. l ++ v ∷ []) (values-SameMap m m' same j)))

put_merged-SameMap :
    (m m' : Headers) (merged : Text)
    → SameMap m m'
    → SameMap (put_merged m merged) (put_merged m' merged)
unfolding put_merged
put_merged-SameMap m m' [] same = same
put_merged-SameMap m m' (c ∷ merged) same = put-SameMap m m' x_goog _ _ same refl

-- The loop over the keys and values, and the end.
abbrev finished : List Text → Headers → Text → Headers
finished keyvals m merged =
    put_merged (merge_keyvals keyvals m merged).0 (merge_keyvals keyvals m merged).1

finished-SameMap :
    (keyvals : List Text) (m m' : Headers) (merged merged' : Text)
    → SameMap m m'
    → merged ≡ merged'
    → SameMap (finished keyvals m merged) (finished keyvals m' merged')
finished-SameMap keyvals m m' merged merged' same e =
    let (same', text) = merge_keyvals-SameMap keyvals m m' merged same in
    subst (λ t. SameMap (finished keyvals m merged) (finished keyvals m' t)) e
      (subst
        (λ t.
          SameMap (finished keyvals m merged) (put_merged (merge_keyvals keyvals m' merged).0 t))
        text (put_merged-SameMap _ _ _ same'))

-- What a key has behind the loop over the headers.
abbrev extended : Bool → Option (List Text) → Option (List Text) → Option (List Text)
extended true new old = old
extended false none old = old
extended false (some vals) none = some vals
extended false (some vals) (some old) = some (old ++ vals)

get-merge_headers :
    (h out : Headers) (merged : Text) (k : Text)
    → NodupKeys h
    → get (merge_headers h out merged).0 k ≡ extended (text_eq k x_goog) (get h k) (get out k)
unfolding merge_headers get values
get-merge_headers [] out merged k nodup = ground arith
get-merge_headers ((j, vals) ∷ h) out merged k (new, nodup) =
    get-merge_headers h _ _ k nodup
    ∙ ground (
      arith,
      get-put out j k (values out j ++ vals),
      text_eq_iff j x_goog,
      text_eq_iff k x_goog,
      text_eq_iff j k,
    )

module _ (range range' : Headers → Headers) (law : IsRange range) (law' : IsRange range')
    (heap : Heap) (ctx : Context) (nodup : NodupKeys (headers_from_context heap ctx)) where
  abbrev h : Headers
  h = headers_from_context heap ctx

  merge_headers-range :
      (out : Headers)
      → SameMap (merge_headers (range h) out []).0 (merge_headers (range' h) out []).0
        × ((merge_headers (range h) out []).1 ≡ (merge_headers (range' h) out []).1)
  merge_headers-range out = (
    λ k.
        get-merge_headers (range h) out [] k (law.nodup h nodup)
        ∙ rw (law.same h k, ← law'.same h k)
            (sym (get-merge_headers (range' h) out [] k (law'.nodup h nodup))),
    merge_headers-merged (range h) out [] (law.nodup h nodup)
        ∙ ap closed
            (values-SameMap (range h) (range' h) (λ k. law.same h k ∙ sym (law'.same h k)) x_goog)
        ∙ sym (merge_headers-merged (range' h) out [] (law'.nodup h nodup)),
  )

  even-range :
      (outgoing : Option Headers) (keyvals : List Text)
      → odd_length keyvals ≡ false
      → unordered (insert_metadata range heap outgoing ctx keyvals)
        ≡ unordered (insert_metadata range' heap outgoing ctx keyvals)
  unfolding insert_metadata
  even-range outgoing keyvals even =
      let out : Headers = elim outgoing [ none ↦ [] | some md ↦ md ] in
      let (same, text) = merge_headers-range out in
      rw (even, insert_metadata)
        (ap some (
          Quot.sound {r = SameMap} (
            finished-SameMap keyvals (merge_headers (range h) out []).0
              (merge_headers (range' h) out []).0 (merge_headers (range h) out []).1
              (merge_headers (range' h) out []).1 same text)))

  odd-range :
      (outgoing : Option Headers) (keyvals : List Text)
      → odd_length keyvals ≡ true
      → insert_metadata range heap outgoing ctx keyvals
        ≡ insert_metadata range' heap outgoing ctx keyvals
  unfolding insert_metadata
  odd-range outgoing keyvals odd = rw odd refl

  -- With each map a set of keys, `BuildHeaders` gives the same metadata in the quotient by the order of
  -- the keys, or panics alike, for any two orders in which the context's headers may be visited.
  pub build_headers-range :
      (outer : Outgoing) (keyvals : List Text)
      → unordered (build_headers range outer heap ctx keyvals)
        ≡ unordered (build_headers range' outer heap ctx keyvals)
  unfolding build_headers
  build_headers-range outer keyvals = elim (Bool-cases (odd_length keyvals)) [
    | inl odd ↦ ap unordered (odd-range (outer.from_outgoing_context ctx) keyvals odd)
    | inr even ↦ even-range (outer.from_outgoing_context ctx) keyvals even
  ]
