-- ===== src/Header/Version/Semver.antt =====
-- The versions that `goVersion` gives for releases and prereleases.
use gax_go.Prelude.{ℕ, ◌≡◌, [], ◌∷◌, Bool, true, ◌⊎◌, ◌≢◌, leb, ◌&&◌}
use gax_go.Prelude.Text.{Text, is_space, NoneOf, Stops}
use gax_go.Header.Version.{not_semver_rune}

abbrev pub is_digit : ℕ → Bool
is_digit c = leb b'0' c && leb c b'9'

-- A number in decimal.
abbrev pub IsNumber : Text → Type 0
IsNumber [] = ⊥
IsNumber (c ∷ []) = is_digit c ≡ true
IsNumber (c ∷ d ∷ s) = (is_digit c ≡ true) × IsNumber (d ∷ s)

-- A prerelease begins with a rune that is neither a digit nor a dot, and has no whitespace.
abbrev pub IsPrerelease : Text → Type 0
IsPrerelease pre = Stops not_semver_rune pre × NoneOf is_space pre

-- A prerelease behind exactly one dash, which it may have itself.
abbrev pub Dashed : Text → Text → Type 0
Dashed [] t = t ≡ []
Dashed (c ∷ pre) t = ((c ≡ b'-') × (t ≡ c ∷ pre)) ⊎ ((c ≢ b'-') × (t ≡ b'-' ∷ c ∷ pre))
