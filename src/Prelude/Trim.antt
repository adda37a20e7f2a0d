-- ===== src/Prelude/Trim.antt =====
-- What strings.TrimSpace leaves.
use Prim.Native.Nat.{ℕ}
use mathlib.Core.Path.{◌≡◌, refl, sym, ap, ◌∙◌, subst}
use mathlib.Core.Logic.{◌≢◌, inl, inr}
use mathlib.Core.Bool.{true, false}
use mathlib.Core.List.{[], ◌∷◌, ◌++◌, reverse, reverse-append, reverse-reverse}
use native.Mathlib.Omega.{arith}
use gax_go.Prelude.Tests.{Bool-cases}
use gax_go.Prelude.Lists.{All, All-append}
use gax_go.Prelude.Text.{Text, is_space, trim_left, trim_space, newline}

-- Whitespace only.
abbrev pub IsBlank : Text → Type 0
IsBlank = All (λ c. is_space c ≡ true)

-- The text does not begin with whitespace.
abbrev pub IsFlush : Text → Type 0
IsFlush [] = Unit {0}
IsFlush (c ∷ s) = is_space c ≡ false

IsFlush-trim_left : (s : Text) → IsFlush (trim_left s)
IsFlush-trim_left [] = tt
IsFlush-trim_left (c ∷ s) = ground (arith, IsFlush-trim_left s)

trim_left_split : (s : Text) → (l : Text) × (s ≡ l ++ trim_left s) × IsBlank l
trim_left_split [] = ([], refl, tt)
trim_left_split (c ∷ s) = elim (Bool-cases (is_space c)) [
  | inl space ↦
      let (l, e, h) = trim_left_split s in (c ∷ l, rw space (ap (λ r. c ∷ r) e), (space, h))
  | inr other ↦ ([], rw other refl, tt)
]

trim_left-IsFlush : (s : Text) → IsFlush s → trim_left s ≡ s
trim_left-IsFlush [] h = refl
trim_left-IsFlush (c ∷ s) h = rw h refl

IsFlush-front : (s t : Text) → IsFlush (s ++ t) → IsFlush s
IsFlush-front [] t h = tt
IsFlush-front (c ∷ s) t h = h

IsBlank-reverse : (s : Text) → IsBlank s → IsBlank (reverse s)
IsBlank-reverse [] h = tt
IsBlank-reverse (c ∷ s) (x, h) =
    subst IsBlank (sym (reverse-append (c ∷ []) s))
      (All-append (λ c. is_space c ≡ true) (reverse s) (c ∷ []) (IsBlank-reverse s h) (x, tt))

-- The whole text is the trimmed one between whitespace, and the trimmed one has none at its ends.
pub trim_space_lem :
    (s : Text)
    → (l : Text) × (r : Text) × (s ≡ l ++ (trim_space s ++ r))
      × IsBlank l
      × IsBlank r
      × IsFlush (trim_space s)
      × IsFlush (reverse (trim_space s))
trim_space_lem s =
    let t = trim_left s in
    let (l, e, blank) = trim_left_split s in
    let (m, f, blank') = trim_left_split (reverse t) in
    let whole : t ≡ trim_space s ++ reverse m =
      sym (reverse-reverse t) ∙ ap reverse f ∙ reverse-append m (trim_left (reverse t)) in
    (
      l,
      reverse m,
      e ∙ ap (λ x. l ++ x) whole,
      blank,
      IsBlank-reverse m blank',
      IsFlush-front (trim_space s) (reverse m) (subst IsFlush whole (IsFlush-trim_left s)),
      subst IsFlush (sym (reverse-reverse (trim_left (reverse t)))) (IsFlush-trim_left (reverse t)),
    )

-- A text without whitespace at its ends loses just a newline behind it.
pub trim_space-newline :
    (c : ℕ) (s : Text)
    → IsFlush (c ∷ s)
    → IsFlush (reverse (c ∷ s))
    → trim_space ((c ∷ s) ++ newline) ≡ c ∷ s
unfolding is_space
trim_space-newline c s h k =
    ap (λ t. reverse (trim_left (reverse t))) (trim_left-IsFlush ((c ∷ s) ++ newline) h)
    ∙ ap (λ t. reverse (trim_left t)) (reverse-append (c ∷ s) newline)
    ∙ ap reverse (trim_left-IsFlush (reverse (c ∷ s)) k)
    ∙ reverse-reverse (c ∷ s)

-- The text is not empty and does not end with whitespace.
abbrev pub IsClosed : Text → Type 0
IsClosed [] = ⊥
IsClosed (c ∷ []) = is_space c ≡ false
IsClosed (c ∷ d ∷ s) = IsClosed (d ∷ s)

pub IsClosed-append : (s t : Text) → IsClosed t → IsClosed (s ++ t)
IsClosed-append [] t h = h
IsClosed-append (c ∷ s) [] h = absurd h
IsClosed-append (c ∷ []) (d ∷ t) h = h
IsClosed-append (c ∷ e ∷ s) (d ∷ t) h = IsClosed-append (e ∷ s) (d ∷ t) h

IsFlush-behind : (s t : Text) → s ≢ [] → IsFlush s → IsFlush (s ++ t)
IsFlush-behind [] t ne h = absurd (ne refl)
IsFlush-behind (c ∷ s) t ne h = h

pub IsFlush-reverse : (s : Text) → IsClosed s → IsFlush (reverse s)
IsFlush-reverse [] h = tt
IsFlush-reverse (c ∷ []) h = h
IsFlush-reverse (c ∷ d ∷ s) h =
    subst IsFlush (sym (reverse-append (c ∷ []) (d ∷ s)))
      (IsFlush-behind (reverse (d ∷ s)) (c ∷ []) (reverse-ne-nil d s) (IsFlush-reverse (d ∷ s) h))
  where
    concat_ne : (e : ℕ) (t : Text) → e ∷ t ≢ []
    concat_ne e t = ground arith

    reverse-ne-nil : (e : ℕ) (t : Text) → reverse (e ∷ t) ≢ []
    reverse-ne-nil e t q = absurd (concat_ne e t (sym (reverse-reverse (e ∷ t)) ∙ ap reverse q))
