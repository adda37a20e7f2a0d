-- ===== src/Header/XGoog.antt =====
-- The text of the x-goog-api-client header.
use gax_go.Prelude.{
  List, [], ◌∷◌, ◌++◌, append_assoc, append-nil, ap, ◌⊎◌, inl, inr, none, some, ◌≡◌, refl, sym, ◌∙◌,
  true, false, drop, Bool-cases,
}
use gax_go.Prelude.Text.{Text, codes, join}
use gax_go.Callctx.{odd_length}
use gax_go.Header.{write_pairs, x_goog_header}

-- KEY/VALUE for each pair.
abbrev pub tokens : List Text → List Text
tokens (k ∷ v ∷ keyval) = (k ++ codes "/" ++ v) ∷ tokens keyval
tokens _ = []

-- Each token behind a space.
abbrev spaced : List Text → Text
spaced [] = []
spaced (t ∷ ts) = codes " " ++ (t ++ spaced ts)

write_pairs-spaced :
    (keyval : List Text) (buf : Text) → write_pairs keyval buf ≡ buf ++ spaced (tokens keyval)
unfolding write_pairs
write_pairs-spaced [] buf = sym (append-nil buf)
write_pairs-spaced (k ∷ []) buf = sym (append-nil buf)
write_pairs-spaced (k ∷ v ∷ keyval) buf = write_pairs-spaced keyval _ ∙ simp append_assoc

drop-spaced : (t : Text) (ts : List Text) → drop 1 (spaced (t ∷ ts)) ≡ join (codes " ") (t ∷ ts)
drop-spaced t [] = append-nil t
drop-spaced t (u ∷ ts) = ap (λ r. t ++ (codes " " ++ r)) (drop-spaced u ts)

-- An even list of keys and values gives KEY/VALUE for each pair, joined by single spaces; an odd
-- list panics.
pub x_goog_header_lem :
    (keyval : List Text)
    → ((odd_length keyval ≡ true) × (x_goog_header keyval ≡ none))
      ⊎ ((odd_length keyval ≡ false)
          × (x_goog_header keyval ≡ some (join (codes " ") (tokens keyval))))
unfolding x_goog_header
x_goog_header_lem [] = inr (refl, refl)
x_goog_header_lem (k ∷ []) = inl (refl, refl)
x_goog_header_lem (k ∷ v ∷ keyval) = elim (Bool-cases (odd_length (k ∷ v ∷ keyval))) [
  | inl odd ↦ inl (odd, rw odd refl)
  | inr even ↦ inr (
    even,
    rw even (
        ap some
          (ap (drop 1) (write_pairs-spaced (k ∷ v ∷ keyval) []) ∙ drop-spaced _ (tokens keyval))),
  )
]
