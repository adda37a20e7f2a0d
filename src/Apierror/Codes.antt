-- ===== src/Apierror/Codes.antt =====
-- `canonicalMap` and `toCode` of v2/apierror/apierror.go. A gRPC code is a number, an HTTP code a
-- Go int.
use gax_go.Prelude.{
  ℕ, ◌≡◌, ◌↔◌, ◌⊎◌, List, [], ◌∷◌, Option, none, some, arith, if◌then◌else◌, ◌&&◌, Bool,
}
use gax_go.Code
use gax_go.Prelude.Int.{ℤ, pos, eq_ℤ, leb_ℤ, ltb_ℤ, ◌≤ℤ◌}

-- The constants of net/http, with the codes that they stand for.
abbrev canonical_map : List (ℤ × ℕ)
canonical_map =
    (pos 200, Code.ok)
    ∷ (pos 400, Code.invalid_argument)
    ∷ (pos 403, Code.permission_denied)
    ∷ (pos 404, Code.not_found)
    ∷ (pos 409, Code.aborted)
    ∷ (pos 416, Code.out_of_range)
    ∷ (pos 429, Code.resource_exhausted)
    ∷ (pos 504, Code.deadline_exceeded)
    ∷ (pos 501, Code.unimplemented)
    ∷ (pos 503, Code.unavailable)
    ∷ (pos 401, Code.unauthenticated)
    ∷ []

abbrev canonical : List (ℤ × ℕ) → ℤ → Option ℕ
canonical [] c = none
canonical ((h, g) ∷ m) c = if eq_ℤ h c then some g else canonical m c

-- lo <= c && c < hi
abbrev in_range : ℤ → ℕ → ℕ → Bool
in_range c lo hi = leb_ℤ (pos lo) c && ltb_ℤ c (pos hi)

unfoldable pub to_code : ℤ → ℕ
to_code c = elim (canonical canonical_map c) [
  | some g ↦ g
  | none ↦
      if in_range c 200 300
      then Code.ok
      else if in_range c 400 500
      then Code.failed_precondition
      else if in_range c 500 600
      then Code.internal
      else Code.unknown
]

-- `toCode` gives OK exactly for the codes from 200 to 299.
to_code-ok : (c : ℤ) → (to_code c ≡ Code.ok) ↔ ((pos 200 ≤ℤ c) × (c ≤ℤ pos 299))
unfolding to_code
to_code-ok c = ground arith

-- `toCode` gives Unknown exactly for the codes outside 200 to 299 and 400 to 599.
to_code-unknown :
    (c : ℤ)
    → (to_code c ≡ Code.unknown)
      ↔ ((¬ ((pos 200 ≤ℤ c) × (c ≤ℤ pos 299))) × (¬ ((pos 400 ≤ℤ c) × (c ≤ℤ pos 599))))
unfolding to_code
to_code-unknown c = ground arith

-- For a code from 500 to 599 `toCode` gives Internal, Unimplemented, Unavailable or
-- DeadlineExceeded.
to_code_server :
    (c : ℤ)
    → (pos 500 ≤ℤ c) × (c ≤ℤ pos 599)
    → (to_code c ≡ Code.internal)
      ⊎ (to_code c ≡ Code.unimplemented)
      ⊎ (to_code c ≡ Code.unavailable)
      ⊎ (to_code c ≡ Code.deadline_exceeded)
unfolding to_code
to_code_server c h = ground arith

-- The four codes come from no other HTTP code.
to_code-server :
    (c : ℤ)
    → (to_code c ≡ Code.internal)
      ⊎ (to_code c ≡ Code.unimplemented)
      ⊎ (to_code c ≡ Code.unavailable)
      ⊎ (to_code c ≡ Code.deadline_exceeded)
    → (pos 500 ≤ℤ c) × (c ≤ℤ pos 599)
unfolding to_code
to_code-server c h = ground arith

-- `toCode` gives OK exactly for the codes from 200 to 299, Unknown exactly for those outside 200 to
-- 299 and 400 to 599, and one of Internal, Unimplemented, Unavailable and DeadlineExceeded exactly for
-- those from 500 to 599.
pub to_code_lem :
    (c : ℤ)
    → ((to_code c ≡ Code.ok) ↔ ((pos 200 ≤ℤ c) × (c ≤ℤ pos 299)))
      × ((to_code c ≡ Code.unknown)
          ↔ ((¬ ((pos 200 ≤ℤ c) × (c ≤ℤ pos 299))) × (¬ ((pos 400 ≤ℤ c) × (c ≤ℤ pos 599)))))
      × (((to_code c ≡ Code.internal)
            ⊎ (to_code c ≡ Code.unimplemented)
            ⊎ (to_code c ≡ Code.unavailable)
            ⊎ (to_code c ≡ Code.deadline_exceeded))
          ↔ ((pos 500 ≤ℤ c) × (c ≤ℤ pos 599)))
to_code_lem c = (to_code-ok c, to_code-unknown c, (to_code-server c, to_code_server c))
