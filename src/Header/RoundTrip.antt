-- ===== src/Header/RoundTrip.antt =====
-- Reading the keys and values back from an x-goog-api-client header.
use gax_go.Prelude.{
  ◌≡◌, ◌≢◌, refl, ap, ◌∙◌, List, [], ◌∷◌, ◌++◌, none, some, false, arith, inl, inr, All, All-append,
  append_assoc,
}
use gax_go.Prelude.Split.{split, split-join}
use gax_go.Prelude.Text.{Text, codes, join, cut, cut-append, Lacks}
use gax_go.Callctx.{odd_length}
use gax_go.Header.{x_goog_header}
use gax_go.Header.XGoog.{tokens, x_goog_header_lem}

-- The key before the first slash of each token, and the value behind it.
pub read_tokens : List Text → List Text
read_tokens [] = []
read_tokens (t ∷ ts) =
    let rest = read_tokens ts in elim (cut b'/' t) [ none ↦ rest | some (k, v) ↦ k ∷ v ∷ rest ]

abbrev pub read_header : Text → List Text
read_header h = read_tokens (split b' ' h)

-- Each key has a value, keys have neither spaces nor slashes, and values have no spaces.
abbrev pub IsClean : List Text → Type 0
IsClean [] = Unit {0}
IsClean (k ∷ []) = ⊥
IsClean (k ∷ v ∷ keyval) = Lacks b' ' k × Lacks b'/' k × Lacks b' ' v × IsClean keyval

odd_length-IsClean : (keyval : List Text) → IsClean keyval → odd_length keyval ≡ false
unfolding odd_length
odd_length-IsClean [] h = refl
odd_length-IsClean (k ∷ []) h = absurd h
odd_length-IsClean (k ∷ v ∷ keyval) (_, _, _, h) = ground (arith, odd_length-IsClean keyval h)

tokens-Lacks : (keyval : List Text) → IsClean keyval → All (Lacks b' ') (tokens keyval)
tokens-Lacks [] h = tt
tokens-Lacks (k ∷ []) h = absurd h
tokens-Lacks (k ∷ v ∷ keyval) (a, _, b, h) = (
  All-append (λ c. c ≢ b' ') (k ++ codes "/") v
      (All-append (λ c. c ≢ b' ') k (codes "/") a (omega arith, tt)) b,
  tokens-Lacks keyval h,
)

read_tokens-tokens : (keyval : List Text) → IsClean keyval → read_tokens (tokens keyval) ≡ keyval
unfolding read_tokens
read_tokens-tokens [] h = refl
read_tokens-tokens (k ∷ []) h = absurd h
read_tokens-tokens (k ∷ v ∷ keyval) (_, slash, _, h) =
    rw (append_assoc k (codes "/") v, cut-append b'/' k v slash, read_tokens)
      (ap (λ r. k ∷ v ∷ r) (read_tokens-tokens keyval h))

-- The keys and values can be read back from the header, given at least one key and that each has a
-- value, that keys have neither spaces nor slashes and values no spaces.
pub read_header-x_goog_header :
    (k v : Text) (keyval : List Text)
    → IsClean (k ∷ v ∷ keyval)
    → (h : Text) × (x_goog_header (k ∷ v ∷ keyval) ≡ some h) × (read_header h ≡ k ∷ v ∷ keyval)
read_header-x_goog_header k v keyval h = elim (x_goog_header_lem (k ∷ v ∷ keyval)) [
  | inl (odd, e) ↦ ground (arith, odd_length-IsClean (k ∷ v ∷ keyval) h)
  | inr (even, e) ↦ (
    join (codes " ") (tokens (k ∷ v ∷ keyval)),
    e,
    ap read_tokens (split-join b' ' _ _ (tokens-Lacks (k ∷ v ∷ keyval) h))
        ∙ read_tokens-tokens (k ∷ v ∷ keyval) h,
  )
]
