-- ===== src/Feature/Threads/Phases.antt =====
-- Where the goroutines are, and what the store has, before, in and behind the loop.
use mathlib.Core.Path.{subst}
use gax_go.Prelude.{
  ℕ, ◌≡◌, inl, inr, ◌⊎◌, ◌∙◌, ap, arith, List, [], Bool, false, Bool-cases, ◌==◌, All,
}
use gax_go.Prelude.Text.{Text}
use gax_go.Prelude.Dict.{Dict}
use gax_go.Feature.{load, is_feature_enabled, reset}
use gax_go.Feature.Threads.{
  Once, fresh, running, finished, Pc, idle, entered, loading, passed, State, Moves, start, later,
  set_env, enter, begin, load_next, leave, skip, read_store,
}

-- Outside, or before Do.
abbrev pub IsWaiting : Pc → Type 0
IsWaiting idle = Unit
IsWaiting (entered name) = Unit
IsWaiting (loading name rest) = ⊥
IsWaiting (passed name) = ⊥

abbrev pub IsLoading : Pc → Type 0
IsLoading (loading name rest) = Unit
IsLoading p = ⊥

abbrev pub IsPassed : Pc → Type 0
IsPassed (passed name) = Unit
IsPassed p = ⊥

pub active : (p : Pc) → IsLoading p → IsWaiting p → ⊥
active idle at w = at
active (entered name) at w = at
active (loading name rest) at w = w
active (passed name) at w = w

pub behind_active : (p : Pc) → IsPassed p → IsWaiting p → ⊥
behind_active idle behind w = behind
behind_active (entered name) behind w = behind
behind_active (loading name rest) behind w = w
behind_active (passed name) behind w = w

-- What a call that was alone, with this environment, would have been answered.
abbrev pub IsAnswer : List Text → Text × Bool → Type 0
IsAnswer environ (name, b) = b ≡ (is_feature_enabled environ reset name).0

-- The goroutine in the loop is the one that the invariant names.
pub is_same :
    (pc : ℕ → Pc) (i k : ℕ)
    → IsLoading (pc i)
    → ((j : ℕ) → (j == k) ≡ false → IsWaiting (pc j))
    → i ≡ k
is_same pc i k at waiting = elim (Bool-cases (i == k)) [
  | inl same ↦ ground arith
  | inr other ↦ absurd (active (pc i) at (waiting i other))
]

pub rest_same :
    (pc : ℕ → Pc) (i k : ℕ) (name n : Text) (rest rest' : List Text)
    → i ≡ k
    → pc i ≡ loading name rest
    → pc k ≡ loading n rest'
    → rest' ≡ rest
rest_same pc i k name n rest rest' one e at = cc

pub one_active :
    (pc : ℕ → Pc) (i k : ℕ) (n : Text) (rest : List Text)
    → IsPassed (pc i)
    → pc k ≡ loading n rest
    → ((j : ℕ) → (j == k) ≡ false → IsWaiting (pc j))
    → ⊥
one_active pc i k n rest behind at waiting = elim (Bool-cases (i == k)) [
  | inl self ↦ let one : i ≡ k = ground arith in subst IsPassed (ap pc one ∙ at) behind
  | inr other ↦ behind_active (pc i) behind (waiting i other)
]

-- The environment is that of the state in which a goroutine of this run has begun to fill the store.
abbrev pub Began : {s u : State} → Moves s u → List Text → Type 0
Began start environ = ⊥
Began (later {t} run (begin i name e free)) environ = (environ ≡ t.environ) ⊎ Began run environ
Began (later run (set_env _)) environ = Began run environ
Began (later run (enter _ _ _)) environ = Began run environ
Began (later run (load_next _ _ _ _ _)) environ = Began run environ
Began (later run (leave _ _ _)) environ = Began run environ
Began (later run (skip _ _ _ _)) environ = Began run environ
Began (later run (read_store _ _ _)) environ = Began run environ

module _ (Was : List Text → Type 0) where
  abbrev pub Inv : Once → Dict Bool → (ℕ → Pc) → List (Text × Bool) → Type 0
  Inv fresh store pc answers = (answers ≡ []) × ((i : ℕ) → IsWaiting (pc i))
  Inv running store pc answers =
      (answers ≡ [])
      × (i : ℕ) × (name : Text) × (rest environ : List Text) × (pc i ≡ loading name rest)
      × (load rest store ≡ load environ [])
      × Was environ
      × ((j : ℕ) → (j == i) ≡ false → IsWaiting (pc j))
  Inv finished store pc answers =
      (environ : List Text) × (store ≡ load environ [])
      × Was environ
      × All (IsAnswer environ) answers
      × ((j : ℕ) → IsLoading (pc j) → ⊥)
