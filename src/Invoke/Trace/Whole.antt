-- ===== src/Invoke/Trace/Whole.antt =====
-- The log of a whole call of `invoke`.
use gax_go.Prelude.{
  ℕ, ◌≡◌, inl, inr, refl, sym, ap, ◌∙◌, List, [], ◌∷◌, ◌++◌, append-nil, append_assoc, Option, none,
  some, Bool, true, false, Bool-cases, if◌then◌else◌,
}
use gax_go.Prelude.Text.{Text}
use gax_go.Apierror.Types.{ErrorApi}
use gax_go.Context.{Context}
use gax_go.Backoff.{Duration}
use gax_go.Feature.{Features}
use gax_go.Invoke.{Env, Settings, Outcome, release, start, invoke, derives, with_timeout}
use gax_go.Invoke.Deferred.{
  outcome_error, outcome_world, put_world, outcome_world-put_world, put_world-put_world,
  finish_outcome, release_outcome,
}
use gax_go.Invoke.Success.{LoopOutcome, measures, traces, loop_context, loop_world}
use gax_go.Invoke.Trace.{Event, cancelled, IsLogged, IsPacing, rounds, Paced, deferred}
use gax_go.Invoke.Trace.Rounds.{loop-log}

module _ (api : ErrorApi) (env : Env api) {Report : Type 0}
    (report : Context
      → Settings api env
      → Env.World env
      → Option (ErrorApi.Err api)
      → Env.World env
      → Option Report)
    (log : Env.World env → List (Event Report)) (logged : IsLogged api env Report report log)
    (Within : Env.Retryer env → List Duration → Type 0) (pacing : IsPacing api env Within)
    (environ : List Text) (f : Features) (ctx : Context) (settings : Settings api env)
    (quiet : (factory : Env.World env → Option (Env.Retryer env) × Env.World env)
        (w : Env.World env)
      → settings.retry ≡ some factory
      → log (factory w).1 ≡ log w)
    (w : Env.World env) where
  open env use {World}

  abbrev c : Context
  c = loop_context api env environ f ctx settings w

  abbrev w_loop : World
  w_loop = loop_world api env environ f ctx settings w

  log-loop_world : log w_loop ≡ log w
  log-loop_world = elim (Bool-cases (measures api env environ f ctx settings w)) [
    | inl on ↦ rw on (logged.log-new_transport_data w)
    | inr off ↦ rw off refl
  ]

  abbrev cancels : Bool → List (Event Report)
  cancels own = if own then cancelled (with_timeout api env ctx settings w) ∷ [] else []

  log-freed :
      (own : Bool) (w1 : World)
      → log (if own then env.cancel (with_timeout api env ctx settings w) w1 else w1)
        ≡ log w1 ++ cancels own
  log-freed true w1 = logged.log-cancel (with_timeout api env ctx settings w) w1
  log-freed false w1 = sym (append-nil (log w1))

  -- What the deferred functions add to the log behind the loop.
  abbrev behind : Outcome api env → List (Event Report)
  behind o0 =
      deferred api env environ f ctx settings w
        (report c settings w (outcome_error api env o0) (outcome_world api env o0))

  log-released :
      (x : Option (Outcome api env)) (o : Outcome api env)
      → release api env (derives api env ctx settings) (with_timeout api env ctx settings w) x
        ≡ some o
      → (o0 : Outcome api env) × (x ≡ some o0)
        × (o ≡ put_world api env (outcome_world api env o) o0)
        × (log (outcome_world api env o)
            ≡ log (outcome_world api env o0) ++ cancels (derives api env ctx settings))
  log-released x o h =
      let (o0, e, freed) = release_outcome api env (derives api env ctx settings) _ x o h in
      let at = ap (outcome_world api env) freed ∙ outcome_world-put_world api env _ o0 in
      (
        o0,
        e,
        freed ∙ ap (λ v. put_world api env v o0) (sym at),
        ap log at ∙ log-freed (derives api env ctx settings) (outcome_world api env o0),
      )

  finished :
      (fuel : ℕ) (o : Outcome api env)
      → (invoke api env fuel environ f ctx settings w).0 ≡ some o
      → (o0 : Outcome api env) × LoopOutcome api env environ f ctx settings w fuel o0
        × (o ≡ put_world api env (outcome_world api env o) o0)
        × (log (outcome_world api env o) ≡ log (outcome_world api env o0) ++ behind o0)
  unfolding invoke
  finished fuel o h = elim (Bool-cases (measures api env environ f ctx settings w)) [
    | inl on ↦
        let (o1, recorded_, kind, freed) = log-released _ o (rw on at h) in
        let (o0, looped, made) = finish_outcome api env _ settings w _ o1 recorded_ in
        let at = ap (outcome_world api env) made ∙ outcome_world-put_world api env _ o0 in
        (
          o0,
          rw on looped,
          kind
              ∙ ap (put_world api env (outcome_world api env o)) made
              ∙ put_world-put_world api env _ _ o0,
          freed
              ∙ ap (λ l. l ++ cancels (derives api env ctx settings))
                  (ap log at ∙ logged.log-record_metric _ settings w _ _)
              ∙ rw on (append_assoc (log (outcome_world api env o0)) _ _),
        )
    | inr off ↦
        let (o0, looped, kind, freed) = log-released _ o (rw off at h) in
        (o0, rw off looped, kind, rw off freed)
  ]

  pub invoke-log :
      (fuel : ℕ) (o : Outcome api env)
      → (invoke api env fuel environ f ctx settings w).0 ≡ some o
      → (o0 : Outcome api env) × (ds : List Duration) × (interrupted : Bool) × LoopOutcome api env
          environ f ctx settings w fuel o0
        × (o ≡ put_world api env (outcome_world api env o) o0)
        × (log (outcome_world api env o)
            ≡ log w
              ++ (rounds api env c (traces api env environ f ctx settings w) 0 ds interrupted
                  ++ behind o0))
        × Paced api env Within settings none ds
  invoke-log fuel o h =
      let (o0, looped, kind, added) = finished fuel o h in
      let (ds, interrupted, rounds_, paced) =
        loop-log api env report log logged Within pacing c settings
          (traces api env environ f ctx settings w) quiet fuel (start api env w_loop) o0 looped in
      (
        o0,
        ds,
        interrupted,
        looped,
        kind,
        added
            ∙ ap (λ l. l ++ behind o0)
                (rounds_
                  ∙ ap
                      (λ l.
                        l
                        ++ rounds api env c (traces api env environ f ctx settings w) 0 ds
                            interrupted)
                      log-loop_world)
            ∙ append_assoc (log w) _ _,
        paced,
      )
