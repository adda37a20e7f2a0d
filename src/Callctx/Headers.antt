-- ===== src/Callctx/Headers.antt =====
-- What `SetHeaders` stores, and what it leaves alone.
use gax_go.Prelude.{
  ℕ, zero, suc, inl, inr, ◌↔◌, Option-cases, ◌<◌, ◌≡◌, refl, ◌∙◌, ap, List, [], ◌∷◌, ◌++◌,
  append_assoc, append-nil, sym, none, some, true, false, arith, if◌then◌else◌, length, get_or,
  get_or-append_end, All, All-append, length-append, take, take-length_append,
}
use gax_go.Prelude.Text.{Text, text_eq, text_eq_iff}
use gax_go.Prelude.Dict.{get, put, get-put, put-NodupKeys, NodupKeys}
use gax_go.Context.{Context, Key, Value, value, with_value, key_eq}
use gax_go.Callctx.{
  Headers, Heap, read, values, odd_length, headers_from_context, IsRange, clone_loop, clone_headers,
  add_pairs, start_headers, set_headers, header_map,
}

-- The values that a list of keys and values gives to a key, in order.
abbrev pub given : List Text → Text → List Text
given (j ∷ v ∷ keyvals) k = if text_eq j k then v ∷ given keyvals k else given keyvals k
given _ k = []

clone_loop-get :
    (h c : Headers) (k : Text)
    → NodupKeys h
    → values (clone_loop h c) k ≡ (elim (get h k) [ none ↦ values c k | some v ↦ v ])
unfolding clone_loop values get
clone_loop-get [] c k nodup = refl
clone_loop-get ((j, v) ∷ h) c k (fresh, nodup) =
    clone_loop-get h (put c j v) k nodup ∙ ground (arith, get-put c j k v, text_eq_iff j k)

clone_headers-values :
    (range : Headers → Headers) (h : Headers) (k : Text)
    → IsRange range
    → NodupKeys h
    → values (clone_headers range h) k ≡ values h k
unfolding clone_headers values
clone_headers-values range h k law nodup =
    clone_loop-get (range h) [] k (law.nodup h nodup) ∙ rw (law.same h k) (unfold get in refl)

pub values-put :
    (h : Headers) (j k : Text) (v : List Text)
    → values (put h j v) k ≡ (if text_eq j k then v else values h k)
unfolding values
values-put h j k v = ground (arith, get-put h j k v)

values-add_pairs :
    (keyvals : List Text) (h : Headers) (k : Text)
    → values (add_pairs keyvals h) k ≡ values h k ++ given keyvals k
unfolding add_pairs
values-add_pairs [] h k = sym (append-nil _)
values-add_pairs (v ∷ []) h k = sym (append-nil _)
values-add_pairs (j ∷ v ∷ keyvals) h k =
    values-add_pairs keyvals (put h j (values h j ++ v ∷ [])) k
    ∙ ground (
      arith,
      values-put h j k (values h j ++ v ∷ []),
      text_eq_iff j k,
      append_assoc (values h j) (v ∷ []) (given keyvals k),
    )

-- Every map lists a key once, and the context's map is on the heap.
pub record IsValid (heap : Heap) (ctx : Context) : Type 0 where
  pub nodup : All (λ h. NodupKeys h) heap.maps
  pub in_heap : (p : ℕ) → header_map ctx ≡ some p → p < length heap.maps

read-NodupKeys :
    (maps : List Headers) (p : ℕ) → All (λ h. NodupKeys h) maps → NodupKeys (get_or maps p [])
read-NodupKeys [] p all = tt
read-NodupKeys (h ∷ maps) zero (first, all) = first
read-NodupKeys (h ∷ maps) (suc p) (first, all) = read-NodupKeys maps p all

clone_loop-NodupKeys : (h c : Headers) → NodupKeys c → NodupKeys (clone_loop h c)
unfolding clone_loop
clone_loop-NodupKeys [] c nodup = nodup
clone_loop-NodupKeys ((k, v) ∷ h) c nodup =
    clone_loop-NodupKeys h (put c k v) (put-NodupKeys c k v nodup)

add_pairs-NodupKeys :
    (keyvals : List Text) (h : Headers) → NodupKeys h → NodupKeys (add_pairs keyvals h)
unfolding add_pairs
add_pairs-NodupKeys [] h nodup = nodup
add_pairs-NodupKeys (k ∷ []) h nodup = nodup
add_pairs-NodupKeys (k ∷ v ∷ keyvals) h nodup =
    add_pairs-NodupKeys keyvals _ (put-NodupKeys h k (values h k ++ v ∷ []) nodup)

clone_headers-NodupKeys :
    (range : Headers → Headers) (h : Headers) → NodupKeys (clone_headers range h)
unfolding clone_headers
clone_headers-NodupKeys range h = clone_loop-NodupKeys (range h) [] tt

module _ (range : Headers → Headers) (heap : Heap) (ctx : Context) where
  start_headers-NodupKeys : NodupKeys (start_headers range heap ctx)
  unfolding start_headers
  start_headers-NodupKeys = elim (Option-cases (header_map ctx)) [
    | inl e ↦ rw (e, start_headers) tt
    | inr (p, e) ↦ rw (e, start_headers) (clone_headers-NodupKeys range (read heap p))
  ]

  start_headers-values :
      (k : Text)
      → IsRange range
      → IsValid heap ctx
      → values (start_headers range heap ctx) k ≡ values (headers_from_context heap ctx) k
  unfolding start_headers headers_from_context
  start_headers-values k law valid = elim (Option-cases (header_map ctx)) [
    | inl e ↦ rw (e, start_headers, headers_from_context) refl
    | inr (p, e) ↦
        rw (e, start_headers, headers_from_context)
          (clone_headers-values range (read heap p) k law (read-NodupKeys heap.maps p valid.nodup))
  ]

  pub headers_from_context-NodupKeys : IsValid heap ctx → NodupKeys (headers_from_context heap ctx)
  unfolding headers_from_context
  headers_from_context-NodupKeys valid = elim (Option-cases (header_map ctx)) [
    | inl e ↦ rw (e, headers_from_context) tt
    | inr (p, e) ↦ rw (e, headers_from_context) (read-NodupKeys heap.maps p valid.nodup)
  ]

  -- With a value for every key, each map a set of keys, and the context's map on the heap,
  -- `SetHeaders` gives a context in which each key has its old values
  -- followed by the new ones in order. The maps that were there before are unchanged, the new one is
  -- behind them, and no value under another key of the context changes.
  pub set_headers_lem :
      (keyvals : List Text)
      → IsRange range
      → IsValid heap ctx
      → odd_length keyvals ≡ false
      → (ctx' : Context) × (heap' : Heap) × (set_headers range heap ctx keyvals
          ≡ some (ctx', heap'))
        × ((k : Text)
            → values (headers_from_context heap' ctx') k
              ≡ values (headers_from_context heap ctx) k ++ given keyvals k)
        × (take (length heap.maps) heap'.maps ≡ heap.maps)
        × ((k : Key)
            → value ctx' k ≡ (
                if key_eq Key.header_key k
                then some (Value.header_map (length heap.maps))
                else value ctx k))
        × IsValid heap' ctx'
  unfolding set_headers headers_from_context header_map value with_value key_eq
  set_headers_lem keyvals law valid even =
      let h : Headers = add_pairs keyvals (start_headers range heap ctx) in
      (
        with_value ctx Key.header_key (Value.header_map (length heap.maps)),
        record { maps = heap.maps ++ h ∷ [] },
        rw even refl,
        λ k. rw get_or-append_end (
            values-add_pairs keyvals _ k
            ∙ ap (λ v. v ++ given keyvals k) (start_headers-values k law valid)),
        take-length_append heap.maps (h ∷ []),
        λ k. refl,
        record {
          nodup =
              All-append _ heap.maps _ valid.nodup
                (add_pairs-NodupKeys keyvals _ start_headers-NodupKeys, tt);
          in_heap = λ p e. ground (arith, length-append heap.maps (h ∷ []));
        },
      )

  -- `SetHeaders` panics exactly when a key has no value.
  set_headers-none :
      (keyvals : List Text)
      → (set_headers range heap ctx keyvals ≡ none) ↔ (odd_length keyvals ≡ true)
  unfolding set_headers
  set_headers-none keyvals = ground arith
