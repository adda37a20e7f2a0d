-- ===== src/Invoke/Progress.antt =====
-- When the loop comes to an end by what the stub returns.
pub mod Standard
use gax_go.Prelude.{
  ℕ, zero, suc, ◌≡◌, ◌≤◌, ◌⊎◌, refl, ap, ◌∙◌, Option, none, some, Bool, true, false, inl, inr,
}
use gax_go.Prelude.Text.{contains}
use gax_go.Apierror.Types.{ErrorApi}
use gax_go.Context.{Context}
use gax_go.Backoff.{Duration, Runtime, IsRandom, Backoff, next}
use gax_go.Backoff.Bounds.{IsValid, pause_lem}
use gax_go.Retryer.{Retryer, Verdict}
use gax_go.Retryer.Policy.{Policy, Retries, retryer_of, retry-retryer_of}
use gax_go.Invoke.{
  Env, Settings, LoopState, done, again, returned, attempt, loop, wrap_error, get_retryer,
  unknown_authority, start,
}
use gax_go.Invoke.Loop.{final, loop_of_final, loop_of_again}
use gax_go.Invoke.Laws.Attempt.{attempt-Round, Round, Calls, succeeds, untrusted, refused, retries}
use gax_go.Invoke.System.{System, Channel, standard, sleep, put_seed}

-- What the loop needs of a retryer: in a kind of states it retries the errors of a kind, and no
-- others, and stays in such a state.
pub record IsDeciding (api : ErrorApi) (env : Env api) (Holds : Env.Retryer env → Type 0)
    (Retriable : ErrorApi.Err api → Type 0) : Type 0 where
  pub accepts :
      (r : Env.Retryer env) (err : ErrorApi.Err api) (w : Env.World env)
      → Holds r
      → Retriable err
      → (v : Verdict) × (r' : Env.Retryer env) × (w' : Env.World env) × (env.retry r err w
          ≡ some (v, r', w'))
        × (v.should_retry ≡ true)
        × Holds r'
  pub refuses :
      (r : Env.Retryer env) (err : ErrorApi.Err api) (w : Env.World env)
      → Holds r
      → (¬ Retriable err)
      → (v : Verdict) × (r' : Env.Retryer env) × (w' : Env.World env) × (env.retry r err w
          ≡ some (v, r', w'))
        × (v.should_retry ≡ false)

-- The retryer at hand, if there is one.
abbrev pub HasRetryer : {R : Type 0} → (R → Type 0) → Option R → Type 0
HasRetryer Holds none = Unit {0}
HasRetryer Holds (some r) = Holds r

with_first : {A B : Type 0} (p : A × B) {a : A} → p.0 ≡ a → p ≡ (a, p.1)
with_first (x, y) e = rw e refl

module _ (api : ErrorApi) (env : Env api) (ctx : Context) (settings : Settings api env)
    (tracing : Bool) (Retriable : ErrorApi.Err api → Type 0) where
  open env use {World}

  abbrev Certificate : api.Err → Bool → Type 0
  Certificate e b = contains (api.error_text e) (unknown_authority api env) ≡ b

  -- The call returns nil, or the certificate error, or an error whose wrapper is not to be retried.
  abbrev pub Ends : LoopState api env → Option api.Err → Type 0
  Ends s none = (w : World) × Calls api env ctx settings tracing s none w
  Ends s (some last) =
      (e : api.Err) × (w : World) × Calls api env ctx settings tracing s (some e) w
      × ((Certificate e true × (last ≡ e))
          ⊎ (Certificate e false
              × (¬ Retriable (wrap_error api env e))
              × (last ≡ wrap_error api env e)))

  -- From a state on, the call fails n times with an error that is retried, and then ends the loop.
  abbrev pub Runs : Option api.Err → ℕ → LoopState api env → Type 0
  Runs o zero s = Ends s o
  Runs o (suc n) s =
      (e : api.Err) × (w : World) × Calls api env ctx settings tracing s (some e) w
      × Certificate e false
      × Retriable (wrap_error api env e)
      × ((t : LoopState api env) → attempt api env ctx settings tracing s ≡ again t → Runs o n t)

  module _ (Holds : Env.Retryer env → Type 0) (law : IsDeciding api env Holds Retriable)
      (factory : World → Option (Env.Retryer env) × World) (given : settings.retry ≡ some factory)
      (made : (w : World) → (r : Env.Retryer env) × ((factory w).0 ≡ some r) × Holds r)
      (calm : (d : Duration) (w : World) → (env.sleep ctx d w).0 ≡ none) where
    got :
        (o : Option (Env.Retryer env)) (w : World)
        → HasRetryer Holds o
        → (r : Env.Retryer env) × (w1 : World) × (get_retryer api env o factory w ≡ (some r, w1))
          × Holds r
    unfolding get_retryer
    got none w h = let (r, e, k) = made w in (r, (factory w).1, with_first (factory w) e, k)
    got (some r) w h = (r, w, refl, h)

    again_lem :
        (s : LoopState api env) (e : api.Err) (w : World)
        → HasRetryer Holds s.retryer
        → Calls api env ctx settings tracing s (some e) w
        → contains (api.error_text e) (unknown_authority api env) ≡ false
        → Retriable (wrap_error api env e)
        → (t : LoopState api env) × (attempt api env ctx settings tracing s ≡ again t)
          × HasRetryer Holds t.retryer
    again_lem s e w h c safe retriable =
        let (r, w1, g, holds) = got s.retryer w h in
        let (v, r', w2, a, b, holds') = law.accepts r (wrap_error api env e) w1 holds retriable in
        (
          _,
          (attempt-Round api env ctx settings tracing s _).1 (
              retries e w w1 w2 (env.sleep ctx v.pause w2).1 factory r r' v (c, safe, given, g) a b
                (with_first (env.sleep ctx v.pause w2) (calm v.pause w2))),
          holds',
        )

    ended :
        (fuel : ℕ) (s : LoopState api env) (o : Option api.Err) (w : World)
        → Round api env ctx settings tracing s (done o w)
        → loop api env (suc fuel) ctx settings tracing s ≡ some (returned o w)
    ended fuel s o w round = loop_of_final api env ctx settings tracing fuel s (
        ap (final api env ctx settings tracing)
          ((attempt-Round api env ctx settings tracing s (done o w)).1 round))

    loop-Ends :
        (o : Option api.Err) (s : LoopState api env)
        → HasRetryer Holds s.retryer
        → Ends s o
        → (w : World) × (loop api env 1 ctx settings tracing s ≡ some (returned o w))
    loop-Ends none s h (w, c) = (w, ended zero s none w (succeeds w c))
    loop-Ends (some last) s h (e, w, c, inl (bad, same)) =
        (w, rw same (ended zero s (some e) w (untrusted e w c bad)))
    loop-Ends (some last) s h (e, w, c, inr (safe, refusal, same)) =
        let (r, w1, g, holds) = got s.retryer w h in
        let (v, r', w2, a, b) = law.refuses r (wrap_error api env e) w1 holds refusal in
        (
          w2,
          rw same (
              ended zero s (some (wrap_error api env e)) w2
                (refused e w w1 w2 factory r r' v (c, safe, given, g) a b)),
        )

    -- The loop ends after the failures, whatever their number: one round for each, and one more.
    pub loop-Runs :
        (o : Option api.Err) (n : ℕ) (s : LoopState api env)
        → HasRetryer Holds s.retryer
        → Runs o n s
        → (w : World) × (loop api env (suc n) ctx settings tracing s ≡ some (returned o w))
    loop-Runs o zero s h last = loop-Ends o s h last
    loop-Runs o (suc n) s h (e, w, c, safe, retriable, rest) =
        let (t, a, k) = again_lem s e w h c safe retriable in
        let (w', done') = loop-Runs o n t k (rest t a) in
        (w', loop_of_again api env ctx settings tracing (suc n) s t a ∙ done')
