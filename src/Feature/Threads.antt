-- ===== src/Feature/Threads.antt =====
-- `IsFeatureEnabled` in several goroutines: each step is one of a single goroutine, in any order. Of
-- `sync.Once` the steps take what its documentation says: the first caller of Do runs the function, and
-- no other call of Do returns before the function has.
pub mod Phases
pub mod Invariant
pub mod Answers
pub mod Progress
use gax_go.Prelude.{ℕ, ◌≡◌, List, [], ◌∷◌, Bool, if◌then◌else◌, ◌==◌}
use gax_go.Prelude.Text.{Text}
use gax_go.Prelude.Dict.{Dict}
use gax_go.Feature.{load_entry, flag}

-- `featureEnabledOnce`
pub data Once : Type 0 where
  fresh running finished : Once

-- Where a goroutine is: outside, before Do, in the loop with the entries that are left, and behind Do.
pub data Pc : Type 0 where
  idle : Pc
  entered : Text → Pc
  loading : Text → List Text → Pc
  passed : Text → Pc

-- `answers` has the name and the result of each call that has returned.
pub record State : Type 0 where
  pub once : Once
  pub store : Dict Bool
  pub pc : ℕ → Pc
  pub environ : List Text
  pub answers : List (Text × Bool)

abbrev pub set_pc : (ℕ → Pc) → ℕ → Pc → ℕ → Pc
set_pc pc i p j = if j == i then p else pc j

-- A step of goroutine `i`, or a change of the environment.
pub data Move (s : State) : State → Type 0 where
  set_env : (environ : List Text) → Move s (record s { environ = environ })
  enter :
      (i : ℕ) (name : Text)
      → s.pc i ≡ idle
      → Move s (record s { pc = set_pc s.pc i (entered name) })
  begin :
      (i : ℕ) (name : Text)
      → s.pc i ≡ entered name
      → s.once ≡ fresh
      → Move s
          (record s { once = running; store = []; pc = set_pc s.pc i (loading name s.environ) })
  load_next :
      (i : ℕ) (name env : Text) (rest : List Text)
      → s.pc i ≡ loading name (env ∷ rest)
      → Move s (record s { store = load_entry env s.store; pc = set_pc s.pc i (loading name rest) })
  leave :
      (i : ℕ) (name : Text)
      → s.pc i ≡ loading name []
      → Move s (record s { once = finished; pc = set_pc s.pc i (passed name) })
  skip :
      (i : ℕ) (name : Text)
      → s.pc i ≡ entered name
      → s.once ≡ finished
      → Move s (record s { pc = set_pc s.pc i (passed name) })
  read_store :
      (i : ℕ) (name : Text)
      → s.pc i ≡ passed name
      → Move s
          (record s { pc = set_pc s.pc i idle; answers = (name, flag s.store name) ∷ s.answers })

abbrev pub at_start : List Text → State
at_start environ = record {
  once = fresh;
  store = [];
  pc = λ _. idle;
  environ = environ;
  answers = [];
}

pub data Moves (s : State) : State → Type 0 where
  start : Moves s s
  later : {t u : State} → Moves s t → Move t u → Moves s u

abbrev pub Reach : List Text → State → Type 0
Reach environ = Moves (at_start environ)
