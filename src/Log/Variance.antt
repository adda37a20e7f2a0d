-- ===== src/Log/Variance.antt =====
-- v2/internallog/internal/logtest/logtest.go. The two files and package json are parameters; a test
-- that is stopped by t.Fatal is `none` or `fatal`.
pub mod Laws
pub mod Exact
use gax_go.Prelude.{List, [], ◌∷◌, Option, none, some, Bool, true, false, if◌then◌else◌}
use gax_go.Prelude.Text.{Text, codes, text_eq, join, newline}
use gax_go.Prelude.Split.{split}
use gax_go.Prelude.Dict.{Dict, get, put, delete}

-- What the helper uses of package json and of type any.
pub record LogJson : Type 1 where
  pub Any : Type 0
  -- v.(map[string]any), and the other way
  pub as_object : Any → Option (Dict Any)
  pub of_object : Dict Any → Any
  -- json.Unmarshal into a map[string]any; the text null, which leaves a nil map, is left aside
  pub unmarshal : Text → Option (Dict Any)
  pub marshal : Dict Any → Option Text

pub data Verdict : Type 0 where
  fatal passed mismatch : Verdict
  -- what is written to the golden file
  wrote : Text → Verdict

module _ (json : LogJson) where
  open json use {Any}

  -- The body of the test on "sourceLocation".
  unfoldable pub trim_location : Dict Any → Dict Any
  trim_location m = elim (get m (codes "sourceLocation")) [
    | none ↦ m
    | some v ↦ elim (json.as_object v) [
      | none ↦ m
      | some sl ↦
          put m (codes "sourceLocation")
            (json.of_object (delete (delete sl (codes "file")) (codes "line")))
    ]
  ]

  -- One round of the loop over the lines.
  unfoldable pub log_line : Text → Option Text
  unfolding trim_location
  log_line [] = some []
  log_line (c ∷ b) = elim (json.unmarshal (c ∷ b)) [
    | none ↦ none
    | some m ↦ json.marshal (trim_location (delete m (codes "timestamp")))
  ]

  unfoldable pub log_lines : List Text → Option (List Text)
  log_lines [] = some []
  log_lines (b ∷ bs) = elim (log_line b) [
    | none ↦ none
    | some b' ↦ elim (log_lines bs) [ none ↦ none | some bs' ↦ some (b' ∷ bs') ]
  ]

  unfoldable pub remove_log_variance : Text → Option Text
  remove_log_variance [] = some []
  remove_log_variance (c ∷ s) = elim (log_lines (split b'\n' (c ∷ s))) [
    | none ↦ none
    | some bs ↦ some (join newline bs)
  ]

  -- cmp.Diff(want, got) == ""
  unfoldable pub compare : Text → Option Text → Verdict
  compare want none = fatal
  compare want (some got) = if text_eq want got then passed else mismatch

  -- From the test of `updateGolden`; `written` is whether os.WriteFile works.
  unfoldable pub update : Bool → Option Text → Verdict
  update written none = fatal
  update written (some got) = if written then wrote got else fatal

  -- `raw_got` and `want` are the contents of the files, or `none` for an error.
  unfoldable pub diff_test : Option Text → Bool → Bool → Option Text → Verdict
  unfolding compare update
  diff_test none update_golden written want = fatal
  diff_test (some raw) true written want = update written (remove_log_variance raw)
  diff_test (some raw) false written none = fatal
  diff_test (some raw) false written (some text) = compare text (remove_log_variance raw)
