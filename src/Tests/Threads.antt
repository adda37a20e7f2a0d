-- ===== src/Tests/Threads.antt =====
-- Two goroutines that ask for feature flags at once.
use gax_go.Prelude.{◌⊎◌, ℕ, ◌≡◌, refl, List, [], ◌∷◌, true, false, All}
use gax_go.Prelude.Text.{Text, codes, strip_prefix, cut, text_eq, lower}
use gax_go.Prelude.Dict.{get, put}
use gax_go.Feature.{load_entry, flag}
use gax_go.Feature.Threads.{
  State, Move, enter, begin, load_next, leave, skip, read_store, set_env, at_start, Reach, start,
  later,
}
use gax_go.Feature.Threads.Phases.{IsLoading, IsPassed, Began, IsAnswer}
use gax_go.Feature.Threads.Progress.{CanAnswer, Reach-CanAnswer}
use gax_go.Feature.Threads.Answers.{Reach-IsAnswer}

abbrev metrics : Text
metrics = codes "METRICS"

abbrev entry : Text
entry = codes "GOOGLE_SDK_GO_EXPERIMENTAL_METRICS=true"

abbrev Reached : Type 0
Reached = (s : State) × Reach (entry ∷ []) s

abbrev next : (r : Reached) → {t : State} → Move r.0 t → Reached
next (s, reach) {t} step = (t, later reach step)

abbrev both_entered : Reached
both_entered =
    next (next (at_start (entry ∷ []), start) (enter 0 metrics refl))
      (enter 1 (codes "TRACING") refl)

-- Goroutine 0 is first; the variable is removed while it reads the environment.
abbrev filled : Reached
filled =
    next
      (next (next (next both_entered (begin 0 metrics refl refl)) (set_env []))
        (load_next 0 metrics entry [] refl))
      (leave 0 metrics refl)

abbrev both_answered : Reached
both_answered =
    next
      (next (next filled (skip 1 (codes "TRACING") refl refl))
        (read_store 1 (codes "TRACING") refl))
      (read_store 0 metrics refl)

answers_given : both_answered.0.answers ≡ (metrics, true) ∷ (codes "TRACING", false) ∷ []
unfolding load_entry flag get put strip_prefix cut text_eq lower
answers_given = refl

Reach-IsAnswer_example :
    ((i j : ℕ) → ¬ (IsLoading (both_answered.0.pc i) × IsPassed (both_answered.0.pc j)))
    × ((both_answered.0.answers ≡ [])
        ⊎ ((environ : List Text) × Began both_answered.1 environ
            × All (IsAnswer environ) both_answered.0.answers))
Reach-IsAnswer_example = Reach-IsAnswer (entry ∷ []) both_answered.0 both_answered.1

-- Goroutine 1 waits while goroutine 0 reads the environment.
abbrev filling : Reached
filling = next both_entered (begin 0 metrics refl refl)

Reach-CanAnswer_example : CanAnswer filling.0 1 (codes "TRACING")
Reach-CanAnswer_example = Reach-CanAnswer (entry ∷ []) filling.0 1 (codes "TRACING") filling.1 refl
