-- ===== src/Tests/Variance.antt =====
-- The test helper of the logs.
use mathlib.Core.Path.{subst}
use gax_go.Prelude.{
  Option, false, Bool, Bool-cases, ap, sym, ◌∙◌, arith, ◌≢◌, if◌then◌else◌, ◌&&◌, ◌||◌, inl, inr,
  ◌+◌, ℕ, ◌≡◌, ◌↔◌, refl, [], ◌∷◌, none, some, true,
}
use gax_go.Prelude.Text.{Text, codes, text_eq, text_eq_iff, Lacks}
use gax_go.Prelude.Dict.{Dict, get, put, delete}
use gax_go.Prelude.Split.{split}
use gax_go.Log.Variance.{LogJson, diff_test, passed, wrote}
use gax_go.Log.Variance.Exact.{IsFaithful, diff_test_iff}
use gax_go.Log.Variance.Laws.{IsSorting, Agree, AllAgree, diff_test-update}

-- A log line is its source line, a blank and a message, all one rune each; as an object, a number is
-- that line.
abbrev read_line : Text → Option (Dict ℕ)
read_line (l ∷ b ∷ c ∷ []) =
    some ((codes "timestamp", l + 7) ∷ (codes "sourceLocation", l) ∷ (codes "message", c) ∷ [])
read_line _ = none

-- The keys that a map may have to be written as JSON.
abbrev is_known : Text → Bool
is_known k = text_eq k (codes "message") || text_eq k (codes "sourceLocation")

abbrev only_known : Dict ℕ → Bool
only_known [] = true
only_known ((k, v) ∷ m) = is_known k && only_known m

-- One rune for a value or a missing one, and no newline.
abbrev rune : Option ℕ → ℕ
rune none = 0
rune (some n) = n + 11

rune-inj : (o o' : Option ℕ) → rune o ≡ rune o' → o ≡ o'
rune-inj none none e = refl
rune-inj none (some n) e = absurd (omega arith)
rune-inj (some n) none e = absurd (omega arith)
rune-inj (some n) (some n') e = ap some (omega arith)

rune_visible : (o : Option ℕ) → rune o ≢ b'\n'
rune_visible none e = absurd (omega arith)
rune_visible (some n) e = absurd (omega arith)

abbrev size : Dict ℕ → ℕ
size [] = 0
size (x ∷ m) = 1

abbrev write_map : Dict ℕ → Option Text
write_map m =
    if only_known m
    then some (rune (get m (codes "message")) ∷ rune (get m (codes "sourceLocation")) ∷ [])
    else none

only_known-get : (m : Dict ℕ) (k : Text) → only_known m ≡ true → is_known k ≡ false → get m k ≡ none
unfolding get
only_known-get [] k h n = refl
only_known-get ((j, v) ∷ m) k h n = ground (arith, text_eq_iff j k, only_known-get m k)

-- The first key that may not be there.
unknown_key :
    (m : Dict ℕ) → only_known m ≡ false → (k : Text) × (is_known k ≡ false) × (get m k ≢ none)
unfolding get
unknown_key [] h = absurd (ground arith)
unknown_key ((j, v) ∷ m) h = elim (Bool-cases (is_known j)) [
  | inr n ↦ (j, n, ground (arith, text_eq_iff j j))
  | inl y ↦ let (k, n, some_) = unknown_key m (ground arith) in (k, n, ground arith)
]

write_map-same : (m m' : Dict ℕ) → ((k : Text) → get m k ≡ get m' k) → write_map m ≡ write_map m'
write_map-same m m' h = elim (Bool-cases (only_known m)) [
  | inl t ↦ elim (Bool-cases (only_known m')) [
    | inl t' ↦ rw (t, t', h (codes "message"), h (codes "sourceLocation")) refl
    | inr f' ↦
        let (k, n, there) = unknown_key m' f' in absurd (there (sym (h k) ∙ only_known-get m k t n))
  ]
  | inr f ↦ elim (Bool-cases (only_known m')) [
    | inl t' ↦
        let (k, n, there) = unknown_key m f in absurd (there (h k ∙ only_known-get m' k t' n))
    | inr f' ↦ rw (f, f') refl
  ]
]

write_map-some :
    (m : Dict ℕ) (b : Text)
    → write_map m ≡ some b
    → (only_known m ≡ true)
      × (b ≡ rune (get m (codes "message")) ∷ rune (get m (codes "sourceLocation")) ∷ [])
write_map-some m b e = elim (Bool-cases (only_known m)) [
  | inl t ↦ (t, ground arith)
  | inr f ↦ absurd (ground arith)
]

write_map-inj :
    (m m' : Dict ℕ) (b : Text)
    → write_map m ≡ some b
    → write_map m' ≡ some b
    → (k : Text) → get m k ≡ get m' k
write_map-inj m m' b e e' k =
    let (t, at) = write_map-some m b e in
    let (t', at') = write_map-some m' b e' in
    let first : get m (codes "message") ≡ get m' (codes "message") = rune-inj _ _ (cc) in
    let second : get m (codes "sourceLocation") ≡ get m' (codes "sourceLocation") =
      rune-inj _ _ (cc) in
    elim (Bool-cases (is_known k)) [
      | inr n ↦ only_known-get m k t n ∙ sym (only_known-get m' k t' n)
      | inl y ↦ elim (Bool-cases (text_eq k (codes "message"))) [
        | inl key ↦ rw ((text_eq_iff k (codes "message")).0 key) first
        | inr other ↦ rw ((text_eq_iff k (codes "sourceLocation")).0 (ground arith)) second
      ]
    ]

abbrev log_json : LogJson
log_json = record {
  Any = ℕ;
  as_object = λ n. some ((codes "line", n) ∷ []);
  of_object = size;
  unmarshal = read_line;
  marshal = write_map;
}

log_json-IsSorting : IsSorting log_json
log_json-IsSorting = record { marshal-same = write_map-same }

log_json-IsFaithful : IsFaithful log_json
log_json-IsFaithful = record {
  marshal-inj = write_map-inj;
  marshal-Lacks = λ m b e.
      subst (λ t. Lacks b'\n' t × (t ≢ [])) (sym (write_map-some m b e).1)
        ((rune_visible _, (rune_visible _, tt)), λ n. cc);
}

abbrev first_log : Text
first_log = codes "1 a\n\n2 b"

abbrev second_log : Text
second_log = codes "8 a\n\n9 b"

lines-Agree : (l l' c : ℕ) → Agree log_json (l ∷ b' ' ∷ c ∷ []) (l' ∷ b' ' ∷ c ∷ [])
unfolding get delete text_eq
lines-Agree l l' c = (
  _,
  _,
  refl,
  refl,
  λ k. elim (Bool-cases (text_eq (codes "timestamp") k)) [
    | inl t ↦ rw t refl
    | inr t ↦ rw t (elim (Bool-cases (text_eq (codes "sourceLocation") k)) [
      | inl sl ↦ rw sl refl
      | inr sl ↦ rw sl refl
    ])
  ],
)

logs-AllAgree : AllAgree log_json (split b'\n' first_log) (split b'\n' second_log)
unfolding split
logs-AllAgree = (lines-Agree b'1' b'8' b'a', (tt, (lines-Agree b'2' b'9' b'b', tt)))

abbrev golden : Text
golden = b'l' ∷ 11 ∷ 10 ∷ 10 ∷ b'm' ∷ 11 ∷ []

golden_written : diff_test log_json (some first_log) true true none ≡ wrote golden
unfolding diff_test get delete put split text_eq gax_go.Log.Variance.remove_log_variance
    gax_go.Log.Variance.log_lines gax_go.Log.Variance.log_line
golden_written = refl

second_log_passes : diff_test log_json (some second_log) false true (some golden) ≡ passed
second_log_passes =
    diff_test-update log_json log_json-IsSorting first_log second_log golden true none logs-AllAgree
      golden_written

diff_test_iff_example :
    (diff_test log_json (some second_log) false true (some golden) ≡ passed)
    ↔ AllAgree log_json (split b'\n' first_log) (split b'\n' second_log)
diff_test_iff_example =
    diff_test_iff log_json log_json-IsFaithful log_json-IsSorting first_log second_log golden true
      none golden_written
