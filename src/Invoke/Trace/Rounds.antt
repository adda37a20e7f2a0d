-- ===== src/Invoke/Trace/Rounds.antt =====
-- The log of the loop.
use gax_go.Prelude.{
  ℕ, zero, suc, ◌≡◌, ◌⊎◌, inl, inr, refl, sym, ap, ◌∙◌, List, [], ◌∷◌, ◌++◌, append_assoc, Option,
  none, some, Bool, true, false, arith,
}
use gax_go.Apierror.Types.{ErrorApi}
use gax_go.Context.{Context}
use gax_go.Backoff.{Duration}
use gax_go.Retryer.{Verdict}
use gax_go.Invoke.{
  Env, Settings, LoopState, Step, done, panicked, again, Outcome, returned, crashed, attempt, loop,
  get_retryer, call_context,
}
use gax_go.Invoke.Deferred.{outcome_world}
use gax_go.Invoke.Loop.{final, loop_of_final, loop_of_again}
use gax_go.Invoke.Laws.Attempt.{
  attempt-Round, Round, Calls, Consults, succeeds, untrusted, no_factory, no_retryer, retry_panics,
  refused, interrupted, retries,
}
use gax_go.Invoke.Trace.{Event, called, slept, IsLogged, IsPacing, rounds, Paced}

module _ (api : ErrorApi) (env : Env api) {Report : Type 0}
    (report : Context
      → Settings api env
      → Env.World env
      → Option (ErrorApi.Err api)
      → Env.World env
      → Option Report)
    (log : Env.World env → List (Event Report)) (logged : IsLogged api env Report report log)
    (Within : Env.Retryer env → List Duration → Type 0) (pacing : IsPacing api env Within)
    (ctx : Context) (settings : Settings api env) (tracing : Bool)
    (quiet : (factory : Env.World env → Option (Env.Retryer env) × Env.World env)
        (w : Env.World env)
      → settings.retry ≡ some factory
      → log (factory w).1 ≡ log w) where
  open env use {World, Retryer}

  abbrev here : ℕ → Event Report
  here n = called (call_context api env ctx tracing n)

  -- What a round adds to the log, and what its delay adds to those that follow.
  abbrev RoundLog : LoopState api env → Step api env → Type 0
  RoundLog s (done e w) =
      (log w ≡ log s.world ++ here s.retry_count ∷ [])
      ⊎ ((d : Duration) × (log w ≡ log s.world ++ here s.retry_count ∷ slept ctx d ∷ [])
          × Paced api env Within settings s.retryer (d ∷ []))
  RoundLog s (panicked e w) = log w ≡ log s.world ++ here s.retry_count ∷ []
  RoundLog s (again t) =
      (d : Duration) × (log t.world ≡ log s.world ++ here s.retry_count ∷ slept ctx d ∷ [])
      × (t.retry_count ≡ suc s.retry_count)
      × ((ds : List Duration)
          → Paced api env Within settings t.retryer ds
          → Paced api env Within settings s.retryer (d ∷ ds))

  log-get_retryer :
      (o r : Option Retryer) (factory : World → Option Retryer × World) (w w1 : World)
      → settings.retry ≡ some factory
      → get_retryer api env o factory w ≡ (r, w1)
      → log w1 ≡ log w
  unfolding get_retryer
  log-get_retryer (some r0) r factory w w1 f g = sym (ap (λ x. log x.1) g)
  log-get_retryer none r factory w w1 f g = sym (ap (λ x. log x.1) g) ∙ quiet factory w f

  get_retryer-Paced :
      (o : Option Retryer) (r : Retryer) (factory : World → Option Retryer × World) (w w1 : World)
      (ds : List Duration)
      → settings.retry ≡ some factory
      → get_retryer api env o factory w ≡ (some r, w1)
      → Within r ds
      → Paced api env Within settings o ds
  unfolding get_retryer
  get_retryer-Paced (some r0) r factory w w1 ds f g h =
      let same : r ≡ r0 = cc (ap (λ x. x.0) g) in rw (← same) h
  get_retryer-Paced none r factory w w1 ds f g h = inr (factory, w, r, f, ap (λ x. x.0) g, h)

  log-Calls :
      (s : LoopState api env) (e : Option api.Err) (w : World)
      → Calls api env ctx settings tracing s e w
      → log w ≡ log s.world ++ here s.retry_count ∷ []
  log-Calls s e w c = sym (ap (λ x. log x.1) c) ∙ logged.log-call _ settings s.world

  log-Consults :
      (s : LoopState api env) (e : api.Err) (w w1 : World) (r : Option Retryer)
      (factory : World → Option Retryer × World)
      → Consults api env ctx settings tracing s e w w1 r factory
      → log w1 ≡ log s.world ++ here s.retry_count ∷ []
  log-Consults s e w w1 r factory (c, safe, f, g) =
      log-get_retryer s.retryer r factory w w1 f g ∙ log-Calls s (some e) w c

  -- The log behind the sleep of a round.
  log-slept :
      (s : LoopState api env) (e : api.Err) (w w1 w2 w3 : World)
      (factory : World → Option Retryer × World) (r r' : Retryer) (v : Verdict) (o : Option api.Err)
      → Consults api env ctx settings tracing s e w w1 (some r) factory
      → (err : api.Err) → env.retry r err w1 ≡ some (v, r', w2)
      → env.sleep ctx v.pause w2 ≡ (o, w3)
      → log w3 ≡ log s.world ++ here s.retry_count ∷ slept ctx v.pause ∷ []
  log-slept s e w w1 w2 w3 factory r r' v o k err a d =
      sym (ap (λ x. log x.1) d)
      ∙ logged.log-sleep ctx v.pause w2
      ∙ ap (λ l. l ++ slept ctx v.pause ∷ [])
          (logged.log-retry r r' err w1 w2 v a ∙ log-Consults s e w w1 (some r) factory k)
      ∙ append_assoc (log s.world) (here s.retry_count ∷ []) (slept ctx v.pause ∷ [])

  Round-RoundLog :
      (s : LoopState api env) (p : Step api env)
      → Round api env ctx settings tracing s p
      → RoundLog s p
  Round-RoundLog s p (succeeds w c) = inl (log-Calls s none w c)
  Round-RoundLog s p (untrusted e w c bad) = inl (log-Calls s (some e) w c)
  Round-RoundLog s p (no_factory e w c safe f) = inl (log-Calls s (some e) w c)
  Round-RoundLog s p (no_retryer e w w1 factory k) = inl (log-Consults s e w w1 none factory k)
  Round-RoundLog s p (retry_panics e w w1 factory r k a) = log-Consults s e w w1 (some r) factory k
  Round-RoundLog s p (refused e w w1 w2 factory r r' v k a b) =
      inl (logged.log-retry r r' _ w1 w2 v a ∙ log-Consults s e w w1 (some r) factory k)
  Round-RoundLog s p (interrupted e e' w w1 w2 w3 factory r r' v (c, safe, f, g) a b d) = inr (
    v.pause,
    log-slept s e w w1 w2 w3 factory r r' v (some e') (c, safe, f, g) _ a d,
    get_retryer-Paced s.retryer r factory w w1 (v.pause ∷ []) f g
        (pacing.one_more r r' _ w1 w2 v [] a b (pacing.none_yet r')),
  )
  Round-RoundLog s p (retries e w w1 w2 w3 factory r r' v (c, safe, f, g) a b d) = (
    v.pause,
    log-slept s e w w1 w2 w3 factory r r' v none (c, safe, f, g) _ a d,
    omega arith,
    λ ds h.
        get_retryer-Paced s.retryer r factory w w1 (v.pause ∷ ds) f g
          (pacing.one_more r r' _ w1 w2 v ds a b h),
  )

  -- What the loop adds to the log.
  abbrev pub LoopLog : LoopState api env → World → Type 0
  LoopLog s w =
      (ds : List Duration) × (interrupted : Bool) × (log w
        ≡ log s.world ++ rounds api env ctx tracing s.retry_count ds interrupted)
      × Paced api env Within settings s.retryer ds

  none-Paced : (o : Option Retryer) → Paced api env Within settings o []
  none-Paced none = inl refl
  none-Paced (some r) = pacing.none_yet r

  pub loop-log :
      (fuel : ℕ) (s : LoopState api env) (o : Outcome api env)
      → loop api env fuel ctx settings tracing s ≡ some o
      → LoopLog s (outcome_world api env o)
  loop-log zero s o h = unfold loop in cc
  loop-log (suc fuel) s o h =
      go (attempt api env ctx settings tracing s) refl
        (Round-RoundLog s _ ((attempt-Round api env ctx settings tracing s _).0 refl))
        (loop-log fuel)
    where
      same_world :
          (o' : Outcome api env)
          → final api env ctx settings tracing (attempt api env ctx settings tracing s) ≡ some o'
          → outcome_world api env o ≡ outcome_world api env o'
      same_world o' q =
          let same : o ≡ o' = cc (loop_of_final api env ctx settings tracing fuel s q) in
          ap (outcome_world api env) same

      go :
          (p : Step api env)
          → attempt api env ctx settings tracing s ≡ p
          → RoundLog s p
          → ((t : LoopState api env) (o : Outcome api env)
              → loop api env fuel ctx settings tracing t ≡ some o
              → LoopLog t (outcome_world api env o))
          → LoopLog s (outcome_world api env o)
      go (done e' w') q (inl l) ih = (
        [],
        false,
        ap log (same_world (returned e' w') (ap (final api env ctx settings tracing) q)) ∙ l,
        none-Paced s.retryer,
      )
      go (done e' w') q (inr (d, l, paced)) ih = (
        d ∷ [],
        true,
        ap log (same_world (returned e' w') (ap (final api env ctx settings tracing) q)) ∙ l,
        paced,
      )
      go (panicked e' w') q l ih = (
        [],
        false,
        ap log (same_world (crashed e' w') (ap (final api env ctx settings tracing) q)) ∙ l,
        none-Paced s.retryer,
      )
      go (again t) q (d, l, count, paced) ih =
          let (ds, cut, l', paced') =
            ih t o (sym (loop_of_again api env ctx settings tracing fuel s t q) ∙ h) in
          (
            d ∷ ds,
            cut,
            l'
                ∙ ap (λ x. x ++ rounds api env ctx tracing t.retry_count ds cut) l
                ∙ append_assoc (log s.world) (here s.retry_count ∷ slept ctx d ∷ [])
                    (rounds api env ctx tracing t.retry_count ds cut)
                ∙ ap
                    (λ n.
                      log s.world
                      ++ here s.retry_count ∷ slept ctx d ∷ rounds api env ctx tracing n ds cut)
                    count,
            paced ds paced',
          )
