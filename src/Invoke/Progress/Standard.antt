-- ===== src/Invoke/Progress/Standard.antt =====
-- The loop with the retryers of the package.
use gax_go.Prelude.{
  ℕ, suc, ◌≡◌, ◌≤◌, ◌⊎◌, refl, ap, Option, none, some, Bool, true, false, inl, inr,
}
use gax_go.Apierror.Types.{ErrorApi}
use gax_go.Context.{Context}
use gax_go.Backoff.{Duration, Runtime, IsRandom, Backoff, next}
use gax_go.Backoff.Bounds.{IsValid, pause_lem}
use gax_go.Retryer.{Retryer, Verdict}
use gax_go.Retryer.Policy.{Policy, Retries, retryer_of, retry-retryer_of}
use gax_go.Invoke.{Settings, returned, loop, start}
use gax_go.Invoke.System.{System, Channel, standard, sleep, put_seed}
use gax_go.Invoke.Progress.{IsDeciding, Runs, loop-Runs}

module _ {api : ErrorApi} {rt : Runtime} (sys : System api rt) (random : IsRandom rt) (cap : ℕ)
    (room : 30_000_000_000 ≤ cap) (policy : Policy api) where
  -- A retryer of the policy with a backoff within range, whose products do not overflow.
  abbrev pub HasBackoff : Retryer api rt → Type 0
  HasBackoff r = (bo : Backoff rt) × (r ≡ retryer_of api rt policy bo) × IsValid cap bo

  decides :
      (bo : Backoff rt) (err : api.Err) (w : sys.World)
      → IsValid cap bo
      → (v : Verdict) × (r' : Retryer api rt) × (w' : sys.World) × ((standard sys).retry
            (retryer_of api rt policy bo)
            err
            w
          ≡ some (v, r', w'))
        × ((Retries api policy err × (v.should_retry ≡ true) × HasBackoff r')
            ⊎ ((¬ (Retries api policy err)) × (v.should_retry ≡ false)))
  decides bo err w valid =
      let (v, r', s', e, answer) =
        retry-retryer_of api random cap room policy bo err (sys.seed w) valid in
      let (_, _, _, _, _, valid') = pause_lem random cap bo (sys.seed w) room valid in
      (
        v,
        r',
        sys.set_seed s' w,
        ap (put_seed sys w) e,
        elim answer [
          | inl (c, should, _, _, made) ↦ inl (c, should, (next rt bo, made, valid'))
          | inr (no_, refusal, _, _, _) ↦ inr (no_, refusal)
        ],
      )

  accepted :
      (bo : Backoff rt) (err : api.Err) (w : sys.World)
      → IsValid cap bo
      → Retries api policy err
      → (v : Verdict) × (r' : Retryer api rt) × (w' : sys.World) × ((standard sys).retry
            (retryer_of api rt policy bo)
            err
            w
          ≡ some (v, r', w'))
        × (v.should_retry ≡ true)
        × HasBackoff r'
  accepted bo err w valid has =
      let (v, r', w', e, answer) = decides bo err w valid in
      elim answer [
        | inl (_, should, holds) ↦ (v, r', w', e, should, holds)
        | inr (no_, _) ↦ absurd (no_ has)
      ]

  rejected :
      (bo : Backoff rt) (err : api.Err) (w : sys.World)
      → IsValid cap bo
      → (¬ (Retries api policy err))
      → (v : Verdict) × (r' : Retryer api rt) × (w' : sys.World) × ((standard sys).retry
            (retryer_of api rt policy bo)
            err
            w
          ≡ some (v, r', w'))
        × (v.should_retry ≡ false)
  rejected bo err w valid no_ =
      let (v, r', w', e, answer) = decides bo err w valid in
      elim answer [
        | inl (has, _, _) ↦ absurd (no_ has)
        | inr (_, refusal) ↦ (v, r', w', e, refusal)
      ]

  -- A retryer of any policy fills the interface.
  retryer_of-IsDeciding : IsDeciding api (standard sys) HasBackoff (Retries api policy)
  retryer_of-IsDeciding = record {
    accepts = λ r err w (bo, made, valid) has. rw made (accepted bo err w valid has);
    refuses = λ r err w (bo, made, valid) no_. rw made (rejected bo err w valid no_);
  }

  uninterrupted :
      (ctx : Context) (d : Duration) (w : sys.World)
      → (sys.wait ctx d w).0 ≡ Channel.timer_fired
      → (sleep sys ctx d w).0 ≡ none
  unfolding sleep
  uninterrupted ctx d w e = rw (e, sleep) refl

  -- With a retryer of `OnErrorFunc`, `OnCodes` or `OnHTTPCodes` over a backoff within range, whose
  -- products do not overflow, under the assumption on the random source, and with sleeps that are
  -- not interrupted, the loop returns in its round n + 1 if from its start on the call fails n
  -- times, each time with an error that is not the certificate error and that, once wrapped, the
  -- retryer is to retry, and then returns nil, the certificate error or an error that, once
  -- wrapped, is not to be retried. What the loop returns is nil, the certificate error or that
  -- wrapper.
  pub loop-retryer_of :
      (ctx : Context) (settings : Settings api (standard sys)) (tracing : Bool) (bo : Backoff rt)
      (o : Option api.Err) (n : ℕ) (w : sys.World)
      → settings.retry ≡ some (λ w. (some (retryer_of api rt policy bo), w))
      → IsValid cap bo
      → ((d : Duration) (w : sys.World) → (sys.wait ctx d w).0 ≡ Channel.timer_fired)
      → Runs api
          (standard sys)
          ctx
          settings
          tracing
          (Retries api policy)
          o
          n
          (start api (standard sys) w)
      → (w' : sys.World) × (loop api
            (standard sys)
            (suc n)
            ctx
            settings
            tracing
            (start api (standard sys) w)
          ≡ some (returned o w'))
  loop-retryer_of ctx settings tracing bo o n w given valid calm runs =
      loop-Runs api (standard sys) ctx settings tracing (Retries api policy) HasBackoff
        retryer_of-IsDeciding (λ w. (some (retryer_of api rt policy bo), w)) given
        (λ w. (retryer_of api rt policy bo, refl, (bo, refl, valid)))
        (λ d w. uninterrupted ctx d w (calm d w)) o n (start api (standard sys) w) tt runs
