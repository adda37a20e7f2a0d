-- ===== src/Log/Variance/Exact.antt =====
-- Which logs pass a golden file, in both directions.
use gax_go.Prelude.{
  ℕ, ◌≡◌, ◌≢◌, ◌↔◌, refl, sym, ap, ◌∙◌, List, [], ◌∷◌, Option, none, some, Option-cases, inl, inr,
  Bool, true, false, arith, All,
}
use mathlib.Core.Path.{subst}
use gax_go.Prelude.Text.{Text, codes, text_eq_iff, join, newline, Lacks}
use gax_go.Prelude.Split.{split, split-join, split-cons}
use gax_go.Prelude.Dict.{Dict, get, delete}
use gax_go.Log.Variance.{
  LogJson, passed, wrote, trim_location, log_line, log_lines, remove_log_variance, compare,
  diff_test,
}
use gax_go.Log.Variance.Laws.{
  IsSorting, get-steady, Agree, AllAgree, joined_lines, remove_log_variance_lem, update-wrote,
  diff_test-update,
}

-- The text of a map is one line that is not empty, and maps with other values have other texts.
pub record IsFaithful (json : LogJson) : Type 0 where
  pub marshal-inj :
      (m m' : Dict json.Any) (b : Text)
      → json.marshal m ≡ some b
      → json.marshal m' ≡ some b
      → (k : Text) → get m k ≡ get m' k
  pub marshal-Lacks :
      (m : Dict json.Any) (b : Text) → json.marshal m ≡ some b → Lacks b'\n' b × (b ≢ [])

module _ (json : LogJson) (faithful : IsFaithful json) where
  log_line-some :
      (c : ℕ) (b t : Text)
      → log_line json (c ∷ b) ≡ some t
      → (m : Dict json.Any) × (json.unmarshal (c ∷ b) ≡ some m)
        × (json.marshal (trim_location json (delete m (codes "timestamp"))) ≡ some t)
  unfolding log_line
  log_line-some c b t e = elim (Option-cases (json.unmarshal (c ∷ b))) [
    | inl n ↦ absurd (ground arith)
    | inr (m, n) ↦ (m, n, ground arith)
  ]

  log_line-Lacks : (b t : Text) → log_line json b ≡ some t → Lacks b'\n' t
  unfolding log_line
  log_line-Lacks [] t e = let empty : [] ≡ t = cc in subst (Lacks b'\n') empty tt
  log_line-Lacks (c ∷ b) t e =
      let (m, _, made) = log_line-some c b t e in (faithful.marshal-Lacks _ t made).0

  nonempty : (c : ℕ) (b t : Text) → log_line json (c ∷ b) ≡ some t → t ≢ []
  nonempty c b t e = let (m, _, made) = log_line-some c b t e in (faithful.marshal-Lacks _ t made).1

  Agree-log_line :
      (b b' t : Text) → log_line json b ≡ some t → log_line json b' ≡ some t → Agree json b b'
  Agree-log_line [] [] t e e' = tt
  Agree-log_line [] (c ∷ b) t e e' =
      absurd (nonempty c b t e' (let empty : t ≡ [] = (unfold log_line in cc) in empty))
  Agree-log_line (c ∷ b) [] t e e' =
      absurd (nonempty c b t e (let empty : t ≡ [] = (unfold log_line in cc) in empty))
  Agree-log_line (c ∷ b) (c' ∷ b') t e e' =
      let (m, n, made) = log_line-some c b t e in
      let (m', n', made') = log_line-some c' b' t e' in
      (
        m,
        m',
        n,
        n',
        λ k.
            sym (get-steady json m k)
            ∙ faithful.marshal-inj _ _ t made made' k
            ∙ get-steady json m' k,
      )

  -- The lines that the loop gives.
  log_lines-cons :
      (b : Text) (bs : List Text) (ts : List Text)
      → log_lines json (b ∷ bs) ≡ some ts
      → (t : Text) × (rest : List Text) × (ts ≡ t ∷ rest)
        × (log_line json b ≡ some t)
        × (log_lines json bs ≡ some rest)
  unfolding log_lines
  log_lines-cons b bs ts e = elim (Option-cases (log_line json b)) [
    | inl n ↦ absurd (ground arith)
    | inr (t, n) ↦ elim (Option-cases (log_lines json bs)) [
      | inl n' ↦ absurd (ground arith)
      | inr (rest, n') ↦ (t, rest, ground arith, n, n')
    ]
  ]

  log_lines-Lacks : (bs ts : List Text) → log_lines json bs ≡ some ts → All (Lacks b'\n') ts
  log_lines-Lacks [] ts e =
      let empty : [] ≡ ts = (unfold log_lines in cc) in subst (All (Lacks b'\n')) empty tt
  log_lines-Lacks (b ∷ bs) ts e =
      let (t, rest, q, one, more) = log_lines-cons b bs ts e in
      subst (All (Lacks b'\n')) (sym q) (log_line-Lacks b t one, log_lines-Lacks bs rest more)

  AllAgree-log_lines :
      (bs bs' ts : List Text)
      → log_lines json bs ≡ some ts
      → log_lines json bs' ≡ some ts
      → AllAgree json bs bs'
  AllAgree-log_lines [] [] ts e e' = tt
  AllAgree-log_lines [] (b ∷ bs) ts e e' =
      let (t, rest, q, _, _) = log_lines-cons b bs ts e' in absurd (unfold log_lines in cc)
  AllAgree-log_lines (b ∷ bs) [] ts e e' =
      let (t, rest, q, _, _) = log_lines-cons b bs ts e in absurd (unfold log_lines in cc)
  AllAgree-log_lines (b ∷ bs) (b' ∷ bs') ts e e' =
      let (t, rest, q, one, more) = log_lines-cons b bs ts e in
      let (t', rest', q', one', more') = log_lines-cons b' bs' ts e' in
      let same : t' ≡ t = cc in
      let same_rest : rest' ≡ rest = cc in
      (
        Agree-log_line b b' t one (one' ∙ ap some same),
        AllAgree-log_lines bs bs' rest more (more' ∙ ap some same_rest),
      )

  joined_lines_lem :
      (o : Option (List Text)) (golden : Text)
      → joined_lines json o ≡ some golden
      → (ts : List Text) × (o ≡ some ts) × (golden ≡ join newline ts)
  joined_lines_lem none golden e = cc
  joined_lines_lem (some ts) golden e = (ts, refl, ground arith)

  -- What is left of a log has the lines of its text.
  lines_of :
      (s golden : Text)
      → remove_log_variance json s ≡ some golden
      → log_lines json (split b'\n' s) ≡ some (split b'\n' golden)
  lines_of s golden e =
      let (ts, made, text) =
        joined_lines_lem (log_lines json (split b'\n' s)) golden
          (sym (remove_log_variance_lem json s) ∙ e) in
      let (p, ps, parts) = split-cons b'\n' s in
      let (t, rest, q, _, _) = log_lines-cons p ps ts (rw (← parts) made) in
      let lacks = log_lines-Lacks (split b'\n' s) ts made in
      made
      ∙ ap some (
          q
          ∙ sym (split-join b'\n' t rest (subst (All (Lacks b'\n')) q lacks))
          ∙ ap (split b'\n') (ap (join newline) (sym q) ∙ sym text))

  compare-passed :
      (golden : Text) (o : Option Text) → compare json golden o ≡ passed → o ≡ some golden
  unfolding compare
  compare-passed golden none e = cc
  compare-passed golden (some got) e = ground (arith, text_eq_iff golden got)

  -- A log passes the golden file that an update has written from another log exactly if their lines
  -- agree one by one but for the timestamp and the file and line of the source location. It is assumed
  -- that the text of a JSON object does not depend on the order of its keys, is one line that is not
  -- empty, and tells apart the objects that have other values.
  pub diff_test_iff :
      (sorting : IsSorting json) (s s' golden : Text) (written : Bool) (want : Option Text)
      → diff_test json (some s) true written want ≡ wrote golden
      → (diff_test json (some s') false written (some golden) ≡ passed)
        ↔ AllAgree json (split b'\n' s) (split b'\n' s')
  unfolding diff_test
  diff_test_iff sorting s s' golden written want e = (
    λ pass.
        AllAgree-log_lines (split b'\n' s) (split b'\n' s') (split b'\n' golden)
          (lines_of s golden (update-wrote json written (remove_log_variance json s) golden e))
          (lines_of s' golden (compare-passed golden (remove_log_variance json s') pass)),
    λ agree. diff_test-update json sorting s s' golden written want agree e,
  )
