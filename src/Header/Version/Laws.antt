-- ===== src/Header/Version/Laws.antt =====
-- What `goVersion` gives.
use gax_go.Prelude.{
  ℕ, ◌≡◌, refl, [], ◌∷◌, ◌++◌, Bool, false, arith, Option-cases, Bool-cases, inl, inr, All-append,
  ltb,
}
use mathlib.Core.Path.{subst}
use gax_go.Prelude.Text.{
  Text, codes, strip_prefix, strip_prefix_sound, is_space, before, NoneOf, before-NoneOf,
  before-NoneOf_other, from-NoneOf,
}
use gax_go.Header.Version.{
  not_semver_rune, ends_with_dot, count_dots, complete, dashed, release_version, go_version,
  devel_prefix,
}

NoneOf-behind : (q : ℕ → Bool) (s t : Text) → NoneOf q (s ++ t) → NoneOf q t
NoneOf-behind q [] t h = h
NoneOf-behind q (c ∷ s) t (x, h) = NoneOf-behind q s t h

complete-NoneOf : (s : Text) → NoneOf is_space s → NoneOf is_space (complete s)
unfolding complete is_space
complete-NoneOf s h = elim (Bool-cases (ends_with_dot s)) [
  | inl e ↦ rw e (All-append _ s (codes "0") h (refl, tt))
  | inr e ↦ elim (Bool-cases (ltb (count_dots s) 2)) [
    | inl l ↦ rw (e, l) (All-append _ s (codes ".0") h (refl, (refl, tt)))
    | inr l ↦ rw (e, l) h
  ]
]

dashed-NoneOf : (s : Text) → NoneOf is_space s → NoneOf is_space (dashed s)
unfolding dashed is_space
dashed-NoneOf [] h = tt
dashed-NoneOf (c ∷ s) h = ground arith

release_version-NoneOf : (s : Text) → NoneOf is_space s → NoneOf is_space (release_version s)
unfolding release_version is_space
release_version-NoneOf s h = elim (Option-cases (strip_prefix (codes "go1") s)) [
  | inl e ↦ rw (e, release_version) (refl, (refl, (refl, (refl, (refl, (refl, (refl, tt)))))))
  | inr (rest, e) ↦
      let all = subst (NoneOf is_space) (strip_prefix_sound (codes "go1") s e) h in
      let v : NoneOf is_space (b'1' ∷ rest) =
        NoneOf-behind is_space (codes "go") (b'1' ∷ rest) all in
      rw (e, release_version)
        (All-append (λ c. is_space c ≡ false) _ _
          (complete-NoneOf _ (before-NoneOf_other not_semver_rune is_space (b'1' ∷ rest) v))
          (dashed-NoneOf _ (from-NoneOf not_semver_rune is_space (b'1' ∷ rest) v)))
]

-- The result has no whitespace, whatever the runtime reports.
go_version-NoneOf : (s : Text) → NoneOf is_space (go_version s)
unfolding go_version
go_version-NoneOf s = elim (Option-cases (strip_prefix devel_prefix s)) [
  | inl e ↦
      rw (e, go_version) (release_version-NoneOf (before is_space s) (before-NoneOf is_space s))
  | inr (t, e) ↦ rw (e, go_version) (before-NoneOf is_space t)
]
