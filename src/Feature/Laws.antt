-- ===== src/Feature/Laws.antt =====
-- Which entries of the environment enable a feature, and that the answer is cached.
use gax_go.Prelude.{
  List, [], ◌∷◌, ◌++◌, append_assoc, none, some, Bool, true, ◌≡◌, ◌↔◌, ◌⊎◌, inl, inr, ◌∙◌, sym, ap,
  arith, if◌then◌else◌, map, Option-cases,
}
use gax_go.Prelude.Text.{
  Text, codes, text_eq, text_eq_iff, strip_prefix, strip_prefix-append, strip_prefix_sound, cut,
  cut-append, cut-prefix, cut_sound, Lacks, lower,
}
use mathlib.Core.Bool.{false≢true}
use gax_go.Prelude.Dict.{Dict, get, put, get-put}
use gax_go.Feature.{
  Features, experimental, general, parse_env, read_env, load, load_entry, flag, is_feature_enabled,
  reset,
}

-- PREFIX NAME=VALUE, where the name has no `=` and the value is "true" but for case.
abbrev pub Sets : Text → Text → Text → Type 0
Sets prefix env name =
    (value : Text) × (env ≡ (prefix ++ name) ++ b'=' ∷ value)
    × Lacks b'=' name
    × (map lower value ≡ codes "true")

-- The longer prefix is taken where both fit.
abbrev pub Enables : Text → Text → Type 0
Enables env name =
    Sets experimental env name ⊎ ((strip_prefix experimental env ≡ none) × Sets general env name)

parse_env-prefix :
    (prefix rest : Text)
    → Lacks b'=' prefix
    → parse_env prefix (prefix ++ rest) ≡ (elim (cut b'=' rest) [
      | none ↦ none
      | some (name, value) ↦ if text_eq (map lower value) (codes "true") then some name else none
    ])
unfolding parse_env
parse_env-prefix prefix rest clean = elim (Option-cases (cut b'=' rest)) [
  | inl e ↦ ground (arith, cut-prefix b'=' prefix rest clean)
  | inr ((name, value), e) ↦
      ground (arith, cut-prefix b'=' prefix rest clean, strip_prefix-append prefix name)
]

module _ (prefix : Text) (clean : Lacks b'=' prefix) where
  parse_env_complete : (env name : Text) → Sets prefix env name → parse_env prefix env ≡ some name
  parse_env_complete env name (value, shape, plain, is_true) =
      rw (shape, append_assoc, parse_env-prefix prefix _ clean, cut-append b'=' name value plain)
        (ground (arith, text_eq_iff (map lower value) (codes "true")))

  parse_env_sound :
      (rest name : Text)
      → parse_env prefix (prefix ++ rest) ≡ some name
      → Sets prefix (prefix ++ rest) name
  parse_env_sound rest name h = elim (Option-cases (cut b'=' rest)) [
    | inl e ↦ ground (arith, parse_env-prefix prefix rest clean)
    | inr ((n, value), e) ↦
        let (shape, plain) = cut_sound b'=' rest n value e in
        let (same, is_true) = facts n value e in
        (
          value,
          rw (← same, shape) (sym (append_assoc prefix n (b'=' ∷ value))),
          rw (← same) plain,
          is_true,
        )
  ]
    where
      facts :
          (n value : Text)
          → cut b'=' rest ≡ some (n, value)
          → (n ≡ name) × (map lower value ≡ codes "true")
      facts n value e =
          ground (
            arith,
            parse_env-prefix prefix rest clean,
            text_eq_iff (map lower value) (codes "true"),
          )

strip_prefix-cases :
    (p s : Text)
    → (strip_prefix p s ≡ none) ⊎ ((rest : Text) × (s ≡ p ++ rest) × (strip_prefix p s ≡ some rest))
strip_prefix-cases p s = elim (Option-cases (strip_prefix p s)) [
  | inl e ↦ inl e
  | inr (rest, e) ↦ inr (rest, strip_prefix_sound p s e, e)
]

Sets-has_prefix :
    (p env name : Text)
    → Sets p env name
    → (rest : Text) × (env ≡ p ++ rest) × (strip_prefix p env ≡ some rest)
Sets-has_prefix p env name (value, shape, _, _) =
    let e : env ≡ p ++ (name ++ b'=' ∷ value) = shape ∙ append_assoc p name (b'=' ∷ value) in
    (name ++ b'=' ∷ value, e, rw e (strip_prefix-append p _))

read_env_complete : (env name : Text) → Enables env name → read_env env ≡ some name
unfolding read_env
read_env_complete env name (inl sets) =
    let (rest, _, e) = Sets-has_prefix experimental env name sets in
    ground (arith, parse_env_complete experimental (omega arith) env name sets)
read_env_complete env name (inr (absent, sets)) =
    let (rest, _, e) = Sets-has_prefix general env name sets in
    ground (arith, parse_env_complete general (omega arith) env name sets)

read_env_sound : (env name : Text) → read_env env ≡ some name → Enables env name
unfolding read_env
read_env_sound env name h = elim (strip_prefix-cases experimental env) [
  | inr (rest, shape, e) ↦ inl (
      rw shape (parse_env_sound experimental (omega arith) rest name (rw (← shape) (ground arith))))
  | inl absent ↦ elim (strip_prefix-cases general env) [
    | inl none' ↦ ground arith
    | inr (rest, shape, e) ↦ inr (
      absent,
      rw shape (parse_env_sound general (omega arith) rest name (rw (← shape) (ground arith))),
    )
  ]
]

-- Some entry of the environment enables the feature.
abbrev pub IsEnabledBy : List Text → Text → Type 0
IsEnabledBy [] name = ⊥
IsEnabledBy (env ∷ environ) name = Enables env name ⊎ IsEnabledBy environ name

flag-put :
    (store : Dict Bool) (k name : Text)
    → (flag (put store k true) name ≡ true) ↔ ((k ≡ name) ⊎ (flag store name ≡ true))
unfolding flag
flag-put store k name = ground (arith, get-put store k name true, text_eq_iff k name)

flag-load :
    (environ : List Text) (store : Dict Bool) (name : Text)
    → (flag (load environ store) name ≡ true)
      ↔ (IsEnabledBy environ name ⊎ (flag store name ≡ true))
unfolding load load_entry
flag-load [] store name = ground arith
flag-load (env ∷ environ) store name = elim (Option-cases (read_env env)) [
  | inl e ↦
      rw (e, load, load_entry)
        (let ih = flag-load environ store name in
          (
            λ t. elim (ih.0 t) [ inl l ↦ inl (inr l) | inr r ↦ inr r ],
            λ c. elim c [
              | inl (inl on) ↦ cc (read_env_complete env name on)
              | inl (inr l) ↦ ih.1 (inl l)
              | inr r ↦ ih.1 (inr r)
            ],
          ))
  | inr (k, e) ↦
      rw (e, load, load_entry)
        (let ih = flag-load environ (put store k true) name in
          (
            λ t. elim (ih.0 t) [
              | inl l ↦ inl (inr l)
              | inr r ↦ elim ((flag-put store k name).0 r) [
                | inl same ↦ inl (inl (read_env_sound env name (e ∙ ap some same)))
                | inr old ↦ inr old
              ]
            ],
            λ c. elim c [
              | inl (inl on) ↦
                  ih.1 (inr ((flag-put store k name).1 (inl (cc (read_env_complete env name on)))))
              | inl (inr l) ↦ ih.1 (inl l)
              | inr r ↦ ih.1 (inr ((flag-put store k name).1 (inr r)))
            ],
          ))
]

-- Before the first call, or after a reset, a feature is enabled exactly if an entry of the
-- environment is PREFIX NAME=VALUE with no `=` in the name and "true" as value but for case. Both
-- prefixes count, and the longer is taken where both fit.
pub is_feature_enabled_iff :
    (environ : List Text) (name : Text)
    → ((is_feature_enabled environ reset name).0 ≡ true) ↔ IsEnabledBy environ name
unfolding is_feature_enabled reset
is_feature_enabled_iff environ name =
    let law = flag-load environ [] name in
    (
      λ t. elim (law.0 t) [ inl l ↦ l | inr r ↦ unfold flag get in absurd (false≢true r) ],
      λ l. law.1 (inl l),
    )

-- From the second call on the answers are those of the first call's environment, whatever the
-- environment is then, and the state does not change.
is_feature_enabled_cached :
    (environ later : List Text) (f : Features) (name other : Text)
    → is_feature_enabled later (is_feature_enabled environ f name).1 other
      ≡ is_feature_enabled environ f other
unfolding is_feature_enabled
is_feature_enabled_cached environ later f name other = ground arith
