-- ===== src/Log/Variance/Laws.antt =====
-- Which logs the golden files tell apart.
use gax_go.Prelude.{
  ◌≡◌, refl, sym, ap, ◌∙◌, List, [], ◌∷◌, Option, none, some, Option-cases, Bool-cases, inl, inr,
  Bool, true, false, arith, if◌then◌else◌,
}
use gax_go.Prelude.Text.{Text, codes, text_eq, text_eq_iff, join, newline}
use gax_go.Prelude.Split.{split}
use gax_go.Prelude.Dict.{Dict, get, delete, get-put, get-delete}
use gax_go.Log.Variance.{
  LogJson, passed, wrote, trim_location, log_line, log_lines, remove_log_variance, compare, update,
  diff_test,
}

-- The text of a map does not depend on the order of its keys, which are sorted.
pub record IsSorting (json : LogJson) : Type 0 where
  pub marshal-same :
      (m m' : Dict json.Any) → ((k : Text) → get m k ≡ get m' k) → json.marshal m ≡ json.marshal m'

module _ (json : LogJson) where
  open json use {Any}

  -- A value, without the file and the line if it is an object.
  abbrev pub located : Option Any → Option Any
  located none = none
  located (some v) = elim (json.as_object v) [
    | none ↦ some v
    | some sl ↦ some (json.of_object (delete (delete sl (codes "file")) (codes "line")))
  ]

  -- What a key of a log line has that does not vary.
  abbrev pub steady : Text → Option Any → Option Any
  steady k v =
      if text_eq (codes "timestamp") k
      then none
      else if text_eq (codes "sourceLocation") k
      then located v
      else v

  -- The map is left as it is where nothing is located.
  same_located :
      (m : Dict Any) (k : Text)
      → located (get m (codes "sourceLocation")) ≡ get m (codes "sourceLocation")
      → get m k ≡ (if text_eq (codes "sourceLocation") k then located (get m k) else get m k)
  same_located m k h = elim (Bool-cases (text_eq (codes "sourceLocation") k)) [
    | inl same ↦
        let key : codes "sourceLocation" ≡ k = (text_eq_iff (codes "sourceLocation") k).0 same in
        rw (same, ← key) (sym h)
    | inr other ↦ rw other refl
  ]

  get-trim_location :
      (m : Dict Any) (k : Text)
      → get (trim_location json m) k
        ≡ (if text_eq (codes "sourceLocation") k then located (get m k) else get m k)
  unfolding trim_location
  get-trim_location m k = elim (Option-cases (get m (codes "sourceLocation"))) [
    | inl e ↦ rw (e, trim_location) (same_located m k (rw e refl))
    | inr (v, e) ↦ elim (Option-cases (json.as_object v)) [
      | inl d ↦ rw (e, trim_location, d) (same_located m k (rw e (rw (d, located) refl)))
      | inr (sl, d) ↦
          let v' : Any = json.of_object (delete (delete sl (codes "file")) (codes "line")) in
          rw (e, trim_location, d)
            (get-put m (codes "sourceLocation") k v'
              ∙ elim (Bool-cases (text_eq (codes "sourceLocation") k)) [
                | inl same ↦
                    let key : codes "sourceLocation" ≡ k =
                      (text_eq_iff (codes "sourceLocation") k).0 same in
                    rw (same, ← key) (rw e (rw (d, located) refl))
                | inr other ↦ rw other refl
              ])
    ]
  ]

  pub get-steady :
      (m : Dict Any) (k : Text)
      → get (trim_location json (delete m (codes "timestamp"))) k ≡ steady k (get m k)
  get-steady m k =
      get-trim_location (delete m (codes "timestamp")) k
      ∙ ground (arith, get-delete m (codes "timestamp") k)

  -- Two lines are empty, or have the same values but for what may vary.
  abbrev pub Agree : Text → Text → Type 0
  Agree [] [] = Unit {0}
  Agree (c ∷ b) (c' ∷ b') =
      (m : Dict Any) × (m' : Dict Any) × (json.unmarshal (c ∷ b) ≡ some m)
      × (json.unmarshal (c' ∷ b') ≡ some m')
      × ((k : Text) → steady k (get m k) ≡ steady k (get m' k))
  Agree _ _ = ⊥

  abbrev pub AllAgree : List Text → List Text → Type 0
  AllAgree [] [] = Unit {0}
  AllAgree (b ∷ bs) (b' ∷ bs') = Agree b b' × AllAgree bs bs'
  AllAgree _ _ = ⊥

  abbrev pub onto : Option Text → Option (List Text) → Option (List Text)
  onto l r = elim l [ none ↦ none | some b ↦ elim r [ none ↦ none | some bs ↦ some (b ∷ bs) ] ]

  abbrev pub joined_lines : Option (List Text) → Option Text
  joined_lines none = none
  joined_lines (some bs) = some (join newline bs)

  pub remove_log_variance_lem :
      (s : Text) → remove_log_variance json s ≡ joined_lines (log_lines json (split b'\n' s))
  unfolding remove_log_variance log_lines log_line split
  remove_log_variance_lem [] = refl
  remove_log_variance_lem (c ∷ s) = refl

  pub update-wrote :
      (written : Bool) (o : Option Text) (golden : Text)
      → update json written o ≡ wrote golden
      → o ≡ some golden
  unfolding update
  update-wrote written none golden h = cc
  update-wrote true (some got) golden h = cc
  update-wrote false (some got) golden h = cc

  module _ (sorting : IsSorting json) where
    log_line-Agree : (b b' : Text) → Agree b b' → log_line json b ≡ log_line json b'
    unfolding log_line
    log_line-Agree [] [] h = refl
    log_line-Agree (c ∷ b) (c' ∷ b') (m, m', e, e', same) =
        rw (e, e', log_line)
          (sorting.marshal-same _ _ (λ k. get-steady m k ∙ same k ∙ sym (get-steady m' k)))
    log_line-Agree [] (c ∷ b) h = absurd h
    log_line-Agree (c ∷ b) [] h = absurd h

    pub log_lines-AllAgree :
        (bs bs' : List Text) → AllAgree bs bs' → log_lines json bs ≡ log_lines json bs'
    unfolding log_lines
    log_lines-AllAgree [] [] h = refl
    log_lines-AllAgree (b ∷ bs) (b' ∷ bs') (h, hs) =
        ap (λ l. onto l (log_lines json bs)) (log_line-Agree b b' h)
        ∙ ap (onto (log_line json b')) (log_lines-AllAgree bs bs' hs)
    log_lines-AllAgree [] (b ∷ bs) h = absurd h
    log_lines-AllAgree (b ∷ bs) [] h = absurd h

    -- A golden file that an update has written from one log lets another log pass if their lines agree
    -- one by one but for the timestamp and the file and line of the source location. The text of a
    -- JSON object is assumed not to depend on the order of its keys.
    pub diff_test-update :
        (s s' golden : Text) (written : Bool) (want : Option Text)
        → AllAgree (split b'\n' s) (split b'\n' s')
        → diff_test json (some s) true written want ≡ wrote golden
        → diff_test json (some s') false written (some golden) ≡ passed
    unfolding diff_test compare
    diff_test-update s s' golden written want h e =
        let same : remove_log_variance json s' ≡ remove_log_variance json s =
          remove_log_variance_lem s'
          ∙ ap joined_lines (sym (log_lines-AllAgree (split b'\n' s) (split b'\n' s') h))
          ∙ sym (remove_log_variance_lem s) in
        rw (same ∙ update-wrote written (remove_log_variance json s) golden e)
          (unfold compare in rw ((text_eq_iff golden golden).1 refl) refl)
