-- ===== src/Feature/Threads/Progress.antt =====
-- A goroutine that calls `IsFeatureEnabled` can always get its answer.
use mathlib.Core.Path.{subst}
use gax_go.Prelude.{
  ℕ, ◌≡◌, refl, ◌∙◌, ap, arith, List, [], ◌∷◌, Bool, false, Bool-cases, inl, inr, ◌==◌,
}
use gax_go.Prelude.Text.{Text}
use gax_go.Feature.{flag}
use gax_go.Feature.Threads.{
  Once, fresh, running, finished, Pc, idle, entered, loading, passed, State, set_pc, begin,
  load_next, leave, skip, read_store, Moves, Reach, start, later,
}
use gax_go.Feature.Threads.Phases.{IsWaiting, IsLoading, Inv, Began}
use gax_go.Feature.Threads.Invariant.{Reach-Inv}

-- In a call with this name.
abbrev pub Asks : Pc → Text → Type 0
Asks idle name = ⊥
Asks (entered n) name = n ≡ name
Asks (loading n rest) name = n ≡ name
Asks (passed n) name = n ≡ name

-- Some moves on, the call of goroutine `i` has returned, and no other has.
abbrev pub CanAnswer : State → ℕ → Text → Type 0
CanAnswer s i name =
    (t : State) × (b : Bool) × Moves s t × (t.pc i ≡ idle) × (t.answers ≡ (name, b) ∷ s.answers)

set_pc_same : (pc : ℕ → Pc) (i : ℕ) (p : Pc) → set_pc pc i p i ≡ p
set_pc_same pc i p = ground arith

set_pc_other : (pc : ℕ → Pc) (i j : ℕ) (p : Pc) → (j == i) ≡ false → set_pc pc i p j ≡ pc j
set_pc_other pc i j p other = ground arith

read_answer :
    (s t : State) (i : ℕ) (name : Text)
    → Moves s t
    → t.answers ≡ s.answers
    → t.pc i ≡ passed name
    → CanAnswer s i name
read_answer s t i name moves same at = (
  _,
  flag t.store name,
  later moves (read_store i name at),
  set_pc_same t.pc i idle,
  ap (λ l. (name, flag t.store name) ∷ l) same,
)

skip_once :
    (s t : State) (i : ℕ) (name : Text)
    → Moves s t
    → t.answers ≡ s.answers
    → t.once ≡ finished
    → t.pc i ≡ entered name
    → CanAnswer s i name
skip_once s t i name moves same ended at =
    read_answer s _ i name (later moves (skip i name at ended)) same
      (set_pc_same t.pc i (passed name))

-- The goroutine in the loop leaves it, and the others stay where they are.
abbrev Left : State → State → ℕ → Text → Type 0
Left s t k name =
    (u : State) × Moves s u
    × (u.answers ≡ t.answers)
    × (u.once ≡ finished)
    × (u.pc k ≡ passed name)
    × ((j : ℕ) → (j == k) ≡ false → u.pc j ≡ t.pc j)

leave_loop :
    (s : State) (k : ℕ) (name : Text) (rest : List Text) (t : State)
    → Moves s t
    → t.pc k ≡ loading name rest
    → Left s t k name
leave_loop s k name [] t moves at = (
  _,
  later moves (leave k name at),
  refl,
  refl,
  set_pc_same t.pc k (passed name),
  λ j other. set_pc_other t.pc k j (passed name) other,
)
leave_loop s k name (env ∷ rest) t moves at =
    let (u, moves', same, ended, at', others) =
      leave_loop s k name rest _ (later moves (load_next k name env rest at))
        (set_pc_same t.pc k (loading name rest)) in
    (
      u,
      moves',
      same,
      ended,
      at',
      λ j other. others j other ∙ set_pc_other t.pc k j (loading name rest) other,
    )

from_fresh :
    (s : State) (i : ℕ) (name : Text) (p : Pc)
    → s.once ≡ fresh
    → s.pc i ≡ p
    → IsWaiting p
    → Asks p name
    → CanAnswer s i name
from_fresh s i name idle free at w asks = absurd asks
from_fresh s i name (entered n) free at w asks =
    let (u, moves, same, _, at', _) =
      leave_loop s i n s.environ _ (later start (begin i n at free))
        (set_pc_same s.pc i (loading n s.environ)) in
    read_answer s u i name moves same (at' ∙ ap passed asks)
from_fresh s i name (loading n rest) free at w asks = absurd w
from_fresh s i name (passed n) free at w asks = absurd w

-- Where another goroutine has left the loop.
from_other :
    (s u : State) (i : ℕ) (name : Text) (p : Pc)
    → Moves s u
    → u.answers ≡ s.answers
    → u.once ≡ finished
    → u.pc i ≡ p
    → IsWaiting p
    → Asks p name
    → CanAnswer s i name
from_other s u i name idle moves same ended at w asks = absurd asks
from_other s u i name (entered m) moves same ended at w asks =
    skip_once s u i name moves same ended (at ∙ ap entered asks)
from_other s u i name (loading m rest) moves same ended at w asks = absurd w
from_other s u i name (passed m) moves same ended at w asks = absurd w

from_finished :
    (s : State) (i : ℕ) (name : Text) (p : Pc)
    → s.once ≡ finished
    → s.pc i ≡ p
    → (IsLoading p → ⊥)
    → Asks p name
    → CanAnswer s i name
from_finished s i name idle ended at quiet asks = absurd asks
from_finished s i name (entered n) ended at quiet asks =
    skip_once s s i name start refl ended (at ∙ ap entered asks)
from_finished s i name (loading n rest) ended at quiet asks = absurd (quiet tt)
from_finished s i name (passed n) ended at quiet asks =
    read_answer s s i name start refl (at ∙ ap passed asks)

-- From every reachable state in which a goroutine is in a call, moves of the goroutines lead to a state
-- in which this call has returned, and no other has since: no goroutine is kept from its answer.
pub Reach-CanAnswer :
    (environ : List Text) (s : State) (i : ℕ) (name : Text)
    → Reach environ s
    → Asks (s.pc i) name
    → CanAnswer s i name
Reach-CanAnswer environ s i name reach asks = by_phase s.once refl (Reach-Inv s reach)
  where
    by_phase :
        (once : Once)
        → s.once ≡ once
        → Inv (Began reach) once s.store s.pc s.answers
        → CanAnswer s i name
    by_phase fresh q (none_yet, waiting) = from_fresh s i name (s.pc i) q refl (waiting i) asks
    by_phase running q (none_yet, k, n, rest, environ', at, same, was, waiting) =
        let (u, moves, same', ended, at', others) = leave_loop s k n rest s start at in
        elim (Bool-cases (i == k)) [
          | inl self ↦
              let one : i ≡ k = ground arith in
              let asks' : n ≡ name = subst (λ p. Asks p name) (ap s.pc one ∙ at) asks in
              read_answer s u i name moves same' (ap u.pc one ∙ at' ∙ ap passed asks')
          | inr other ↦
              from_other s u i name (s.pc i) moves same' ended (others i other) (waiting i other)
                asks
        ]
    by_phase finished q (environ', same, was, all, quiet) =
        from_finished s i name (s.pc i) q refl (quiet i) asks
