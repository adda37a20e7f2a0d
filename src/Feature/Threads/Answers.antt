-- ===== src/Feature/Threads/Answers.antt =====
-- What goroutines that call `IsFeatureEnabled` at once are answered.
use gax_go.Prelude.{ℕ, ◌≡◌, List, [], All, ◌⊎◌, inl, inr}
use gax_go.Prelude.Text.{Text}
use gax_go.Feature.Threads.{Once, fresh, running, finished, State, Reach}
use gax_go.Feature.Threads.Phases.{IsLoading, IsPassed, IsAnswer, Began, Inv, active, one_active}
use gax_go.Feature.Threads.Invariant.{Reach-Inv}

-- In every run of goroutines that call IsFeatureEnabled, no goroutine reads the store while another
-- fills it, and either no call has returned, or all that have returned have the answers of a call that
-- is alone, with the environment of the state in which a goroutine of this run has begun to fill the
-- store.
pub Reach-IsAnswer :
    (environ0 : List Text) (s : State) (run : Reach environ0 s)
    → ((i j : ℕ) → ¬ (IsLoading (s.pc i) × IsPassed (s.pc j)))
      × ((s.answers ≡ [])
          ⊎ ((environ : List Text) × Began run environ × All (IsAnswer environ) s.answers))
Reach-IsAnswer environ0 s run = by_phase s.once (Reach-Inv s run)
  where
    by_phase :
        (once : Once)
        → Inv (Began run) once s.store s.pc s.answers
        → ((i j : ℕ) → ¬ (IsLoading (s.pc i) × IsPassed (s.pc j)))
          × ((s.answers ≡ [])
              ⊎ ((environ : List Text) × Began run environ × All (IsAnswer environ) s.answers))
    by_phase fresh (none_yet, waiting) =
        (λ i j (at, _). active (s.pc i) at (waiting i), inl none_yet)
    by_phase running (none_yet, k, n, rest, environ, at, same, was, waiting) =
        (λ i j (_, behind). one_active s.pc j k n rest behind at waiting, inl none_yet)
    by_phase finished (environ, same, was, all, quiet) =
        (λ i j (at, _). quiet i at, inr (environ, was, all))
