-- ===== src/Header/Sent.antt =====
-- The headers of a context on their way to the server: callctx.SetHeaders, and then `BuildHeaders` or
-- `InsertMetadataIntoOutgoingContext`.
use gax_go.Prelude.{ℕ, ◌≡◌, refl, ap, ◌∙◌, List, ◌++◌, some, false}
use gax_go.Prelude.Text.{Text}
use gax_go.Context.{Context, Key, value, key_eq}
use gax_go.Callctx.{Headers, Heap, values, odd_length, headers_from_context, IsRange, set_headers}
use gax_go.Callctx.Headers.{IsValid, given, set_headers_lem, headers_from_context-NodupKeys}
use gax_go.Header.{Outgoing, build_headers, insert_metadata_into_outgoing_context}
use gax_go.Header.Metadata.{sent, outgoing_metadata, insert_metadata_lem}

-- Package metadata keeps the outgoing metadata under a key of its own.
pub record IsSeparate (outer : Outgoing) : Type 0 where
  pub separate :
      (ctx ctx' : Context)
      → ((n : ℕ) → value ctx' (Key.foreign_key n) ≡ value ctx (Key.foreign_key n))
      → outer.from_outgoing_context ctx' ≡ outer.from_outgoing_context ctx

-- With a value for every key, each map a set of keys, the context's map on the heap, package metadata
-- on a key of its own and any order of iteration: after `SetHeaders`, both functions give metadata in
-- which a key has the values of the outgoing metadata, of the context's headers before, of `SetHeaders`
-- and of the function itself, in this order, and x-goog-api-client only the new ones, as one.
pub build_headers-set_headers :
    (range : Headers → Headers) (outer : Outgoing) (heap : Heap) (ctx : Context)
    (keyvals more : List Text)
    → IsRange range
    → IsSeparate outer
    → IsValid heap ctx
    → odd_length keyvals ≡ false
    → odd_length more ≡ false
    → (ctx' : Context) × (heap' : Heap) × (md : Headers) × (set_headers range heap ctx keyvals
        ≡ some (ctx', heap'))
      × (build_headers range outer heap' ctx' more ≡ some md)
      × (insert_metadata_into_outgoing_context range outer heap' ctx' more
          ≡ some (outer.new_outgoing_context ctx' md))
      × ((k : Text)
          → values md k
            ≡ sent k
                (values (outgoing_metadata (outer.from_outgoing_context ctx)) k)
                ((values (headers_from_context heap ctx) k ++ given keyvals k) ++ given more k))
unfolding key_eq build_headers insert_metadata_into_outgoing_context
build_headers-set_headers range outer heap ctx keyvals more law apart valid even even' =
    let (ctx', heap', set, merged, _, others, valid') =
      set_headers_lem range heap ctx keyvals law valid even in
    let (md, made, given_md) =
      insert_metadata_lem range heap' (outer.from_outgoing_context ctx') ctx' more law
        (headers_from_context-NodupKeys range heap' ctx' valid') even' in
    (
      ctx',
      heap',
      md,
      set,
      made,
      rw (made, insert_metadata_into_outgoing_context) refl,
      λ k.
          given_md k
          ∙ ap
              (λ o.
                sent k (values (outgoing_metadata o) k)
                  (values (headers_from_context heap' ctx') k ++ given more k))
              (apart.separate ctx ctx' (λ n. others (Key.foreign_key n)))
          ∙ ap
              (λ vs.
                sent k (values (outgoing_metadata (outer.from_outgoing_context ctx)) k)
                  (vs ++ given more k))
              (merged k),
    )
