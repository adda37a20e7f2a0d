-- ===== src/Prelude/Text.antt =====
-- Go strings as lists of code points, and what the program uses of package `strings`.
use Prim.Native.Nat.{ℕ, zero, suc, ◌+◌, ◌/◌, ◌%◌}
use Prim.Native.Char.{code}
use Prim.Native.String.{String}
use mathlib.Core.Path.{◌≡◌, refl}
use mathlib.Core.Logic.{◌↔◌, ◌≢◌}
use mathlib.Core.Bool.{Bool, true, false, ◌&&◌, ◌||◌}
use mathlib.Core.Option.{Option, none, some}
use mathlib.Core.List.{List, [], ◌∷◌, ◌++◌, reverse}
use native.Mathlib.Omega.{arith}
use gax_go.Prelude.Tests.{leb, ◌==◌, if◌then◌else◌}
use gax_go.Prelude.Lists.{All}

abbrev pub Text : Type 0
Text = List ℕ

-- The code points of a literal.
abbrev pub codes : String → Text
codes String.[] = []
codes (String.◌∷◌ c s) = code c ∷ codes s

-- s == t
unfoldable pub text_eq : Text → Text → Bool
text_eq [] [] = true
text_eq [] (d ∷ t) = false
text_eq (c ∷ s) [] = false
text_eq (c ∷ s) (d ∷ t) = (c == d) && text_eq s t

pub text_eq_iff : (s t : Text) → (text_eq s t ≡ true) ↔ (s ≡ t)
unfolding text_eq
text_eq_iff [] [] = (λ _. refl, λ _. refl)
text_eq_iff [] (d ∷ t) = ground arith
text_eq_iff (c ∷ s) [] = ground arith
text_eq_iff (c ∷ s) (d ∷ t) = ground (arith, text_eq_iff s t)

pub text_eq_refl : (s : Text) → text_eq s s ≡ true
text_eq_refl s = (text_eq_iff s s).1 refl

-- strings.HasPrefix(s, prefix), and strings.TrimPrefix(s, prefix) where it holds
unfoldable pub strip_prefix : Text → Text → Option Text
strip_prefix [] s = some s
strip_prefix (c ∷ p) [] = none
strip_prefix (c ∷ p) (d ∷ s) = if c == d then strip_prefix p s else none

pub strip_prefix-append : (p s : Text) → strip_prefix p (p ++ s) ≡ some s
unfolding strip_prefix
strip_prefix-append [] s = refl
strip_prefix-append (c ∷ p) s = ground (arith, strip_prefix-append p s)

pub strip_prefix_sound : (p s : Text) {t : Text} → strip_prefix p s ≡ some t → s ≡ p ++ t
unfolding strip_prefix
strip_prefix_sound [] s h = ground arith
strip_prefix_sound (c ∷ p) [] h = ground arith
strip_prefix_sound (c ∷ p) (d ∷ s) {t} h = ground (arith, strip_prefix_sound p s {t = t})

-- unicode.IsSpace
unfoldable pub is_space : ℕ → Bool
is_space c =
    c == 0x20
    || (leb 0x09 c && leb c 0x0d)
    || c == 0x85
    || c == 0xa0
    || c == 0x1680
    || (leb 0x2000 c && leb c 0x200a)
    || c == 0x2028
    || c == 0x2029
    || c == 0x202f
    || c == 0x205f
    || c == 0x3000

abbrev pub trim_left : Text → Text
trim_left [] = []
trim_left (c ∷ s) = if is_space c then trim_left s else c ∷ s

-- strings.TrimSpace(s)
abbrev pub trim_space : Text → Text
trim_space s = reverse (trim_left (reverse (trim_left s)))

-- strings.Join(parts, sep)
abbrev pub join : Text → List Text → Text
join sep [] = []
join sep (p ∷ []) = p
join sep (p ∷ q ∷ ps) = p ++ (sep ++ join sep (q ∷ ps))

abbrev digits : ℕ → ℕ → Text → Text
digits zero n out = out
digits (suc fuel) n out =
    let rest = digits fuel (n / 10) ((b'0' + n % 10) ∷ out) in if n == 0 then out else rest

-- strconv.Itoa of a number that is not negative; it has at most n digits
unfoldable pub itoa : ℕ → Text
itoa n = if n == 0 then b'0' ∷ [] else digits n n []

-- strings.ToLower on one rune. Of the runes beyond ASCII only these two have an ASCII lower case;
-- the others stay, since the program compares the result with ASCII texts only.
unfoldable pub lower : ℕ → ℕ
lower c =
    if leb b'A' c && leb c b'Z'
    then c + 32
    else if c == 0x130
    then b'i'
    else if c == 0x212a
    then b'k'
    else c

-- The parts before and behind the first `sep`, as strings.SplitN(s, sep, 2) gives them.
unfoldable pub cut : ℕ → Text → Option (Text × Text)
cut sep [] = none
cut sep (c ∷ s) =
    if c == sep
    then some ([], s)
    else (elim (cut sep s) [ none ↦ none | some (a, b) ↦ some (c ∷ a, b) ])

abbrev pub Lacks : ℕ → Text → Type 0
Lacks sep = All (λ c. c ≢ sep)

pub cut-append : (sep : ℕ) (a b : Text) → Lacks sep a → cut sep (a ++ sep ∷ b) ≡ some (a, b)
unfolding cut
cut-append sep [] b h = ground arith
cut-append sep (c ∷ a) b (ne, h) = rw (cut-append sep a b h) (ground arith)

pub cut-prefix :
    (sep : ℕ) (p s : Text)
    → Lacks sep p
    → cut sep (p ++ s) ≡ (elim (cut sep s) [ none ↦ none | some (a, b) ↦ some (p ++ a, b) ])
unfolding cut
cut-prefix sep [] s h = ground arith
cut-prefix sep (c ∷ p) s (ne, h) = ground (arith, cut-prefix sep p s h)

pub cut_sound :
    (sep : ℕ) (s a b : Text) → cut sep s ≡ some (a, b) → (s ≡ a ++ sep ∷ b) × Lacks sep a
unfolding cut
cut_sound sep [] a b h = ground arith
cut_sound sep (c ∷ s) [] b h = ground arith
cut_sound sep (c ∷ s) (d ∷ a) b h = ground (arith, cut_sound sep s a b)

-- strings.Contains(s, sub)
unfoldable pub contains : Text → Text → Bool
contains [] sub = text_eq sub []
contains (c ∷ s) sub = (elim (strip_prefix sub (c ∷ s)) [ some _ ↦ true | none ↦ contains s sub ])

digits_nonempty : (fuel n c : ℕ) (out : Text) → digits fuel n (c ∷ out) ≢ []
digits_nonempty zero n c out = ground arith
digits_nonempty (suc fuel) n c out =
    ground (arith, digits_nonempty fuel (n / 10) (b'0' + n % 10) (c ∷ out))

pub itoa_nonempty : (n : ℕ) → itoa n ≢ []
unfolding itoa
itoa_nonempty zero = ground arith
itoa_nonempty (suc n) = ground (arith, digits_nonempty n (suc n / 10) (b'0' + suc n % 10) [])

-- s[:p] and s[p:] with the first index p whose rune passes the test, or the length if none does:
-- strings.IndexFunc and a cut there.
unfoldable pub before : (ℕ → Bool) → Text → Text
before p [] = []
before p (c ∷ s) = if p c then [] else c ∷ before p s

unfoldable pub from : (ℕ → Bool) → Text → Text
from p [] = []
from p (c ∷ s) = if p c then c ∷ s else from p s

-- No rune of the text passes the test.
abbrev pub NoneOf : (ℕ → Bool) → Text → Type 0
NoneOf p = All (λ c. p c ≡ false)

-- The text is empty or begins with a rune that passes the test.
abbrev pub Stops : (ℕ → Bool) → Text → Type 0
Stops p [] = Unit {0}
Stops p (c ∷ s) = p c ≡ true

pub before-NoneOf : (p : ℕ → Bool) (s : Text) → NoneOf p (before p s)
unfolding before
before-NoneOf p [] = tt
before-NoneOf p (c ∷ s) = ground (arith, before-NoneOf p s)

pub from-NoneOf : (p q : ℕ → Bool) (s : Text) → NoneOf q s → NoneOf q (from p s)
unfolding from
from-NoneOf p q [] h = tt
from-NoneOf p q (c ∷ s) (x, h) = ground (arith, from-NoneOf p q s h)

pub before-NoneOf_other : (p q : ℕ → Bool) (s : Text) → NoneOf q s → NoneOf q (before p s)
unfolding before
before-NoneOf_other p q [] h = tt
before-NoneOf_other p q (c ∷ s) (x, h) = ground (arith, before-NoneOf_other p q s h)

pub before-append : (p : ℕ → Bool) (s t : Text) → NoneOf p s → Stops p t → before p (s ++ t) ≡ s
unfolding before
before-append p [] [] h k = refl
before-append p [] (d ∷ t) h k = rw k
before-append p (c ∷ s) t (x, h) k = rw (x, before-append p s t h k) refl

pub from-append : (p : ℕ → Bool) (s t : Text) → NoneOf p s → Stops p t → from p (s ++ t) ≡ t
unfolding from
from-append p [] [] h k = refl
from-append p [] (d ∷ t) h k = rw k
from-append p (c ∷ s) t (x, h) k = rw x (from-append p s t h k)

-- What fmt.Sprintf writes for these pieces.
abbrev pub concat : List Text → Text
concat [] = []
concat (s ∷ ss) = s ++ concat ss

abbrev pub newline : Text
newline = b'\n' ∷ []
