-- ===== src/Invoke/Deadline.antt =====
-- `invoke` over a clock, with a context that has a deadline.
pub mod Standard
use mathlib.Core.Path.{subst}
use gax_go.Prelude.{
  ℕ, zero, suc, ◌+◌, ◌-◌, ◌<◌, ◌≤◌, ◌≡◌, ◌⊎◌, refl, sym, ap, ◌∙◌, arith, Option, none, some, Bool,
  true,
}
use gax_go.Prelude.Int.{pos, ◌≤ℤ◌}
use gax_go.Apierror.Types.{ErrorApi}
use gax_go.Context.{Context}
use gax_go.Backoff.{Duration}
use gax_go.Retryer.{Verdict}
use gax_go.Invoke.{
  Env, Settings, LoopState, Step, done, panicked, again, returned, attempt, loop, get_retryer,
  wrap_error,
}
use gax_go.Invoke.Progress.{HasRetryer}
use gax_go.Invoke.Loop.{final, loop_of_final, loop_of_again}
use gax_go.Invoke.Laws.Attempt.{
  attempt-Round, Round, Consults, succeeds, untrusted, no_factory, no_retryer, retry_panics,
  refused, interrupted, retries,
}

-- A clock that no effect turns back, and a number of lucky sleeps still to come that none raises. The
-- retryers at hand give an answer, and a pause of at least 1ns where they retry. A sleep that is not
-- interrupted takes time, and begins before the deadline or is a lucky one.
pub record IsTimed (api : ErrorApi) (env : Env api) (clock luck : Env.World env → ℕ)
    (Holds : Env.Retryer env → Type 0) : Type 0 where
  pub clock-call :
      (ctx : Context) (settings : Settings api env) (w : Env.World env)
      → (clock w ≤ clock (env.call ctx settings w).1) × (luck (env.call ctx settings w).1 ≤ luck w)
  pub answers :
      (r : Env.Retryer env) (err : ErrorApi.Err api) (w : Env.World env)
      → Holds r
      → (v : Verdict) × (r' : Env.Retryer env) × (w' : Env.World env) × (env.retry r err w
          ≡ some (v, r', w'))
        × ((clock w ≤ clock w') × (luck w' ≤ luck w))
        × (v.should_retry ≡ true → pos 1 ≤ℤ v.pause)
        × Holds r'
  pub sleep-deadline :
      (ctx : Context) (d : Duration) (w w' : Env.World env) (t : ℕ)
      → pos 1 ≤ℤ d
      → ctx.deadline ≡ some (pos t)
      → env.sleep ctx d w ≡ (none, w')
      → (clock w < clock w') × (luck w' ≤ luck w) × ((clock w < t) ⊎ (luck w' < luck w))

module _ (api : ErrorApi) (env : Env api) (clock luck : Env.World env → ℕ)
    (Holds : Env.Retryer env → Type 0) (timed : IsTimed api env clock luck Holds) (ctx : Context)
    (settings : Settings api env) (tracing : Bool) (t : ℕ)
    (deadline : ctx.deadline ≡ some (pos t)) where
  open env use {World, Retryer}

  -- No time is taken back, and no luck added.
  abbrev pub Later : World → World → Type 0
  Later w w' = (clock w ≤ clock w') × (luck w' ≤ luck w)

  module _
      (made : (factory : World → Option Retryer × World) (w : World)
        → settings.retry ≡ some factory
        → HasRetryer Holds (factory w).0 × Later w (factory w).1) where
    got :
        (o r : Option Retryer) (factory : World → Option Retryer × World) (w w1 : World)
        → HasRetryer Holds o
        → settings.retry ≡ some factory
        → get_retryer api env o factory w ≡ (r, w1)
        → HasRetryer Holds r × Later w w1
    unfolding get_retryer
    got none r factory w w1 h f g =
        subst (λ (x : Option Retryer × World). HasRetryer Holds x.0 × Later w x.1) g
          (made factory w f)
    got (some r0) r factory w w1 h f g =
        subst (λ (x : Option Retryer × World). HasRetryer Holds x.0 × Later w x.1) g
          (h, (omega arith, omega arith))

    asked :
        (r r' : Retryer) (err : api.Err) (w w' : World) (v : Verdict)
        → Holds r
        → env.retry r err w ≡ some (v, r', w')
        → Later w w' × (v.should_retry ≡ true → pos 1 ≤ℤ v.pause) × Holds r'
    asked r r' err w w' v holds a =
        let (v0, r0, w0, answer, later, at_least, holds') = timed.answers r err w holds in
        let same_v : v0 ≡ v = cc in
        let same_r : r0 ≡ r' = cc in
        let same_w : w0 ≡ w' = cc in
        (
          subst (λ x. Later w x) same_w later,
          subst (λ (x : Verdict). x.should_retry ≡ true → pos 1 ≤ℤ x.pause) same_v at_least,
          subst Holds same_r holds',
        )

    -- A round does not panic, and where it goes on it has taken time, and began before the deadline or
    -- took luck.
    abbrev RoundTime : LoopState api env → Step api env → Type 0
    RoundTime s (done e w) = Unit {0}
    RoundTime s (panicked e w) = ⊥
    RoundTime s (again u) =
        (clock s.world < clock u.world)
        × (luck u.world ≤ luck s.world)
        × ((clock s.world < t) ⊎ (luck u.world < luck s.world))
        × HasRetryer Holds u.retryer

    Round-RoundTime :
        (s : LoopState api env) (p : Step api env)
        → HasRetryer Holds s.retryer
        → Round api env ctx settings tracing s p
        → RoundTime s p
    Round-RoundTime s p h (succeeds w c) = tt
    Round-RoundTime s p h (untrusted e w c bad) = tt
    Round-RoundTime s p h (no_factory e w c safe f) = tt
    Round-RoundTime s p h (no_retryer e w w1 factory k) = tt
    Round-RoundTime s p h (retry_panics e w w1 factory r (c, safe, f, g) a) =
        let (holds, _) = got s.retryer (some r) factory w w1 h f g in
        let (v, r', w2, answer, _, _, _) = timed.answers r (wrap_error api env e) w1 holds in cc
    Round-RoundTime s p h (refused e w w1 w2 factory r r' v k a b) = tt
    Round-RoundTime s p h (interrupted e e' w w1 w2 w3 factory r r' v k a b d) = tt
    Round-RoundTime s p h (retries e w w1 w2 w3 factory r r' v (c, safe, f, g) a b d) =
        let (holds, on_got) = got s.retryer (some r) factory w w1 h f g in
        let (on_answer, at_least, holds') = asked r r' (wrap_error api env e) w1 w2 v holds a in
        let on_call : Later s.world w =
          subst (λ (x : Option api.Err × World). Later s.world x.1) c
            (timed.clock-call _ settings s.world) in
        let slept = timed.sleep-deadline ctx v.pause w2 w3 t (at_least b) deadline d in
        (omega arith, omega arith, ground arith, holds')

    -- With as much fuel as there are nanoseconds up to the deadline and lucky sleeps, and one more, the
    -- loop returns.
    pub loop-deadline :
        (fuel : ℕ) (s : LoopState api env)
        → HasRetryer Holds s.retryer
        → (t - clock s.world) + luck s.world < fuel
        → (e : Option api.Err) × (w : World) × (loop api env fuel ctx settings tracing s
            ≡ some (returned e w))
    loop-deadline zero s h lt = absurd (omega arith)
    loop-deadline (suc fuel) s h lt =
        go (attempt api env ctx settings tracing s) refl
          (Round-RoundTime s _ h ((attempt-Round api env ctx settings tracing s _).0 refl))
          (loop-deadline fuel)
      where
        go :
            (p : Step api env)
            → attempt api env ctx settings tracing s ≡ p
            → RoundTime s p
            → ((u : LoopState api env)
                → HasRetryer Holds u.retryer
                → (t - clock u.world) + luck u.world < fuel
                → (e : Option api.Err) × (w : World) × (loop api env fuel ctx settings tracing u
                    ≡ some (returned e w)))
            → (e : Option api.Err) × (w : World) × (loop api env (suc fuel) ctx settings tracing s
                ≡ some (returned e w))
        go (done e w) q time ih = (
          e,
          w,
          loop_of_final api env ctx settings tracing fuel s
              (ap (final api env ctx settings tracing) q),
        )
        go (panicked e w) q time ih = absurd time
        go (again u) q (later, lucky, one, holds) ih =
            let (e, w, looped) = ih u holds (ground arith) in
            (e, w, loop_of_again api env ctx settings tracing fuel s u q ∙ looped)
