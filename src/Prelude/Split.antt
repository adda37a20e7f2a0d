-- ===== src/Prelude/Split.antt =====
-- strings.Split at one rune, and what it does to joined parts.
use gax_go.Prelude.Lists.{All}
use gax_go.Prelude.Tests.{if◌then◌else◌, ◌==◌, Bool-cases}
use mathlib.Core.Logic.{inl, inr}
use Prim.Native.Nat.{ℕ}
use mathlib.Core.Path.{◌≡◌, refl, ap, ◌∙◌}
use mathlib.Core.List.{List, [], ◌∷◌, ◌++◌}
use native.Mathlib.Omega.{arith}
use gax_go.Prelude.Text.{Text, join, Lacks}

-- A rune before the first part.
abbrev onto_first : ℕ → List Text → List Text
onto_first c [] = (c ∷ []) ∷ []
onto_first c (p ∷ ps) = (c ∷ p) ∷ ps

-- The parts between the separators.
unfoldable pub split : ℕ → Text → List Text
split sep [] = [] ∷ []
split sep (c ∷ s) = let rest = split sep s in if c == sep then [] ∷ rest else onto_first c rest

split-Lacks : (sep : ℕ) (s : Text) → Lacks sep s → split sep s ≡ s ∷ []
unfolding split
split-Lacks sep [] h = refl
split-Lacks sep (c ∷ s) (x, h) = ground (arith, split-Lacks sep s h)

split-append : (sep : ℕ) (s t : Text) → Lacks sep s → split sep (s ++ sep ∷ t) ≡ s ∷ split sep t
unfolding split
split-append sep [] t h = ground arith
split-append sep (c ∷ s) t (x, h) = ground (arith, split-append sep s t h)

pub split-join :
    (sep : ℕ) (t : Text) (ts : List Text)
    → All (Lacks sep) (t ∷ ts)
    → split sep (join (sep ∷ []) (t ∷ ts)) ≡ t ∷ ts
split-join sep t [] (h, _) = split-Lacks sep t h
split-join sep t (u ∷ ts) (h, hs) =
    split-append sep t (join (sep ∷ []) (u ∷ ts)) h ∙ ap (λ r. t ∷ r) (split-join sep u ts hs)

-- There is a part, if only an empty one.
pub split-cons : (sep : ℕ) (s : Text) → (p : Text) × (ps : List Text) × (split sep s ≡ p ∷ ps)
unfolding split
split-cons sep [] = ([], [], refl)
split-cons sep (c ∷ s) =
    let (p, ps, e) = split-cons sep s in
    elim (Bool-cases (c == sep)) [
      | inl same ↦ ([], split sep s, ground arith)
      | inr other ↦ (c ∷ p, ps, rw (other, e) refl)
    ]
