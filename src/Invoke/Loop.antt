-- ===== src/Invoke/Loop.antt =====
-- The loop of `invoke` as a sequence of rounds.
use gax_go.Prelude.{
  ℕ, zero, suc, ◌<◌, ◌≡◌, ◌↔◌, ◌⊎◌, inl, inr, refl, sym, ◌∙◌, Option, none, some, Bool, arith,
}
use gax_go.Apierror.Types.{ErrorApi}
use gax_go.Context.{Context}
use gax_go.Invoke.{
  Env, Settings, LoopState, Step, done, panicked, again, Outcome, returned, crashed, attempt, loop,
}

module _ (api : ErrorApi) (env : Env api) (ctx : Context) (settings : Settings api env)
    (tracing : Bool) where
  -- How a round ends the loop, if it does.
  abbrev pub final : Step api env → Option (Outcome api env)
  final (done e w) = some (returned e w)
  final (panicked e w) = some (crashed e w)
  final (again s) = none

  -- After n rounds that go round again, the loop is at `t`.
  abbrev pub Rounds : ℕ → LoopState api env → LoopState api env → Type 0
  Rounds zero s t = s ≡ t
  Rounds (suc n) s t =
      (u : LoopState api env) × (attempt api env ctx settings tracing s ≡ again u) × Rounds n u t

  abbrev Ends : ℕ → LoopState api env → Outcome api env → Type 0
  Ends fuel s o =
      (n : ℕ) × (t : LoopState api env) × (n < fuel)
      × Rounds n s t
      × (final (attempt api env ctx settings tracing t) ≡ some o)

  Step-cases :
      (p : Step api env)
      → ((o : Outcome api env) × (final p ≡ some o)) ⊎ ((s : LoopState api env) × (p ≡ again s))
  Step-cases (done e w) = inl (returned e w, refl)
  Step-cases (panicked e w) = inl (crashed e w, refl)
  Step-cases (again s) = inr (s, refl)

  pub loop_of_final :
      (fuel : ℕ) (s : LoopState api env) {o : Outcome api env}
      → final (attempt api env ctx settings tracing s) ≡ some o
      → loop api env (suc fuel) ctx settings tracing s ≡ some o
  unfolding loop
  loop_of_final fuel s {o} h = go (attempt api env ctx settings tracing s) refl
    where
      go :
          (p : Step api env)
          → attempt api env ctx settings tracing s ≡ p
          → loop api env (suc fuel) ctx settings tracing s ≡ some o
      go (done e w) q = rw (q, loop) (rw q at h)
      go (panicked e w) q = rw (q, loop) (rw q at h)
      go (again t) q = cc

  pub loop_of_again :
      (fuel : ℕ) (s t : LoopState api env)
      → attempt api env ctx settings tracing s ≡ again t
      → loop api env (suc fuel) ctx settings tracing s ≡ loop api env fuel ctx settings tracing t
  unfolding loop
  loop_of_again fuel s t h = rw (h, loop) refl

  loop_sound :
      (fuel : ℕ) (s : LoopState api env) (o : Outcome api env)
      → loop api env fuel ctx settings tracing s ≡ some o
      → Ends fuel s o
  loop_sound zero s o h = unfold loop in cc
  loop_sound (suc fuel) s o h = elim (Step-cases (attempt api env ctx settings tracing s)) [
    | inl (o', e) ↦ (zero, s, omega arith, refl, e ∙ sym (loop_of_final fuel s e) ∙ h)
    | inr (t, e) ↦
        let (n, u, lt, rounds, end') = loop_sound fuel t o (sym (loop_of_again fuel s t e) ∙ h) in
        (suc n, u, omega arith, (t, e, rounds), end')
  ]

  loop_complete :
      (fuel n : ℕ) (s t : LoopState api env) (o : Outcome api env)
      → n < fuel
      → Rounds n s t
      → final (attempt api env ctx settings tracing t) ≡ some o
      → loop api env fuel ctx settings tracing s ≡ some o
  loop_complete zero n s t o lt rounds e = absurd (omega arith)
  loop_complete (suc fuel) zero s t o lt rounds e = loop_of_final fuel s (rw rounds e)
  loop_complete (suc fuel) (suc n) s t o lt (u, step, rounds) e =
      loop_of_again fuel s u step ∙ loop_complete fuel n u t o (omega arith) rounds e

  -- The loop returns an outcome within its fuel exactly if some number of rounds below the fuel go
  -- round again and the next one ends with that outcome; the outcome does not depend on the fuel.
  pub loop_iff :
      (fuel : ℕ) (s : LoopState api env) (o : Outcome api env)
      → (loop api env fuel ctx settings tracing s ≡ some o) ↔ (
          (n : ℕ) × (t : LoopState api env) × (n < fuel)
          × Rounds n s t
          × (final (attempt api env ctx settings tracing t) ≡ some o))
  loop_iff fuel s o =
      (loop_sound fuel s o, λ (n, t, lt, rounds, e). loop_complete fuel n s t o lt rounds e)
