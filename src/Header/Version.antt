-- ===== src/Header/Version.antt =====
-- `goVersion` of v2/header.go. What runtime.Version gives is an argument.
pub mod Laws
pub mod Semver
use gax_go.Prelude.{
  ℕ, ◌+◌, List, [], ◌∷◌, ◌++◌, none, some, Bool, true, false, not, ◌||◌, ◌&&◌, if◌then◌else◌, ltb,
  leb, ◌==◌,
}
use gax_go.Prelude.Text.{Text, codes, strip_prefix, is_space, before, from}

abbrev pub version_unknown : Text
version_unknown = codes "UNKNOWN"

abbrev pub devel_prefix : Text
devel_prefix = codes "devel +"

-- strings.ContainsRune("0123456789.", r), negated
unfoldable pub not_semver_rune : ℕ → Bool
not_semver_rune r = not ((leb b'0' r && leb r b'9') || r == b'.')

-- strings.HasSuffix(s, ".")
unfoldable pub ends_with_dot : Text → Bool
ends_with_dot [] = false
ends_with_dot (c ∷ []) = c == b'.'
ends_with_dot (c ∷ d ∷ s) = ends_with_dot (d ∷ s)

-- strings.Count(s, ".")
unfoldable pub count_dots : Text → ℕ
count_dots [] = 0
count_dots (c ∷ s) = (if c == b'.' then 1 else 0) + count_dots s

-- The version up to the prerelease, with what it lacks of three numbers.
unfoldable pub complete : Text → Text
complete s =
    if ends_with_dot s then s ++ codes "0" else if ltb (count_dots s) 2 then s ++ codes ".0" else s

-- The prerelease, behind a dash.
unfoldable pub dashed : Text → Text
dashed [] = []
dashed (c ∷ s) = if c == b'-' then c ∷ s else b'-' ∷ c ∷ s

-- From the test for "go1".
unfoldable pub release_version : Text → Text
unfolding complete dashed
release_version s = elim (strip_prefix (codes "go1") s) [
  | none ↦ version_unknown
  | some rest ↦
      let v = b'1' ∷ rest in complete (before not_semver_rune v) ++ dashed (from not_semver_rune v)
]

unfoldable pub go_version : Text → Text
unfolding release_version
go_version s = elim (strip_prefix devel_prefix s) [
  | some t ↦ before is_space t
  | none ↦ release_version (before is_space s)
]
