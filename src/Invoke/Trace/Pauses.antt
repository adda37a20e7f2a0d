-- ===== src/Invoke/Trace/Pauses.antt =====
-- The delays that a retryer of the package makes `invoke` sleep.
use gax_go.Prelude.{
  ℕ, ◌≤◌, ◌≡◌, inl, inr, sym, ap, ◌∙◌, List, ◌∷◌, ◌++◌, Option, none, some, Bool, true,
}
use gax_go.Prelude.Text.{Text}
use gax_go.Apierror.Types.{ErrorApi}
use gax_go.Context.{Context}
use gax_go.Backoff.{Duration, Runtime, IsRandom, Backoff, next}
use gax_go.Backoff.Bounds.{IsValid, IsWithin, pause_lem}
use gax_go.Feature.{Features}
use gax_go.Retryer.{Retryer, Verdict}
use gax_go.Retryer.Policy.{Policy, retryer_of, retry-retryer_of}
use mathlib.Core.Bool.{false≢true}
use gax_go.Telemetry.Metric.{Measurement}
use gax_go.Invoke.{Settings, Outcome, invoke}
use gax_go.Invoke.Deferred.{outcome_error, outcome_world, put_world}
use gax_go.Invoke.Success.{LoopOutcome, loop_context, traces}
use gax_go.Invoke.System.{System, standard, put_seed}
use gax_go.Invoke.Trace.{Event, IsPacing, rounds, Paced, deferred}
use gax_go.Invoke.Trace.Standard.{LogsSystem, measurement, standard-IsLogged}
use gax_go.Invoke.Trace.Whole.{invoke-log}

module _ {api : ErrorApi} {rt : Runtime} (sys : System api rt) (random : IsRandom rt) (cap : ℕ)
    (room : 30_000_000_000 ≤ cap) (policy : Policy api) where
  open sys use {World}

  -- Delays within the limits of the retryer's backoff, if it is in range.
  abbrev pub WithinLimits : Retryer api rt → List Duration → Type 0
  WithinLimits r ds =
      (bo : Backoff rt) → r ≡ retryer_of api rt policy bo → IsValid cap bo → IsWithin bo ds

  -- One more delay, in front of those after it.
  WithinLimits-cons :
      (r' : Retryer api rt) (err : api.Err) (w w' : World) (v : Verdict) (ds : List Duration)
      (bo : Backoff rt)
      → (standard sys).retry (retryer_of api rt policy bo) err w ≡ some (v, r', w')
      → v.should_retry ≡ true
      → WithinLimits r' ds
      → IsValid cap bo
      → IsWithin bo (v.pause ∷ ds)
  WithinLimits-cons r' err w w' v ds bo a should within valid =
      let (v0, r0, s0, e, answer) =
        retry-retryer_of api random cap room policy bo err (sys.seed w) valid in
      let same : ◌≡◌ {A = Option (Verdict × Retryer api rt × World)}
          (some (v0, r0, sys.set_seed s0 w)) (some (v, r', w')) =
        sym (ap (put_seed sys w) e) ∙ a in
      let same_v : v0 ≡ v = cc in
      let same_r : r0 ≡ r' = cc in
      elim answer [
        | inl (c, should0, lo, hi, moved) ↦
            let (_, _, _, _, _, valid') = pause_lem random cap bo (sys.seed w) room valid in
            (rw (← same_v) lo, rw (← same_v) hi, within (next rt bo) (sym same_r ∙ moved) valid')
        | inr (_, refused, _, _, _) ↦
            absurd (false≢true (sym refused ∙ ap (λ (x : Verdict). x.should_retry) same_v ∙ should))
      ]

  pub retryer_of-IsPacing : IsPacing api (standard sys) WithinLimits
  retryer_of-IsPacing = record {
    none_yet = λ r bo made valid. tt;
    one_more = λ r r' err w w' v ds a should within bo made valid.
        WithinLimits-cons r' err w w' v ds bo (rw made at a) should within valid;
  }

  module _ (log : World → List (Event (Measurement sys.Histogram))) (logs : LogsSystem sys log)
      (environ : List Text) (f : Features) (ctx : Context) (settings : Settings api (standard sys))
      (bo : Backoff rt)
      (given : settings.retry ≡ some (λ w. (some (retryer_of api rt policy bo), w)))
      (valid : IsValid cap bo) (w : World) where
    pub quiet :
        (factory : World → Option (Retryer api rt) × World) (w : World)
        → settings.retry ≡ some factory
        → log (factory w).1 ≡ log w
    quiet factory w e =
        let same : (λ (w : World). (some (retryer_of api rt policy bo), w)) ≡ factory = cc in
        sym (ap (λ (g : World → Option (Retryer api rt) × World). log (g w).1) same)

    Paced-IsWithin :
        (ds : List Duration)
        → Paced api (standard sys) WithinLimits settings none ds
        → IsWithin bo ds
    Paced-IsWithin ds (inl e) = rw e tt
    Paced-IsWithin ds (inr (factory, w1, r, e, made, within)) =
        let same : (λ (w : World). (some (retryer_of api rt policy bo), w)) ≡ factory = cc in
        within bo (cc (ap (λ (g : World → Option (Retryer api rt) × World). (g w1).0) same)) valid

    -- With a retryer of `OnErrorFunc`, `OnCodes` or `OnHTTPCodes` over a backoff within range,
    -- whose products do not overflow, a call of `invoke` that returns or panics has called in turn,
    -- the n-th time with n as its retry count, and has slept behind each failed call that it
    -- retries, for at least 1ns and at most the limit of the backoff in that round. Behind that
    -- come the measurement, with METRICS on, and the cancellation of a context that it has derived.
    -- The random source is assumed to keep its range, and the surroundings to keep a log.
    pub invoke-pauses :
        (fuel : ℕ) (o : Outcome api (standard sys))
        → (invoke api (standard sys) fuel environ f ctx settings w).0 ≡ some o
        → let c = loop_context api (standard sys) environ f ctx settings w in
          (o0 : Outcome api (standard sys)) × (ds : List Duration) × (interrupted : Bool)
          × LoopOutcome api (standard sys) environ f ctx settings w fuel o0
          × (o ≡ put_world api (standard sys) (outcome_world api (standard sys) o) o0)
          × (log (outcome_world api (standard sys) o)
              ≡ log w
                ++ (rounds api
                      (standard sys)
                      c
                      (traces api (standard sys) environ f ctx settings w)
                      0
                      ds
                      interrupted
                    ++ deferred api (standard sys) environ f ctx settings w (
                        measurement sys c settings w
                          (outcome_error api (standard sys) o0)
                          (outcome_world api (standard sys) o0))))
          × IsWithin bo ds
    invoke-pauses fuel o h =
        let (o0, ds, interrupted, looped, kind, added, paced) =
          invoke-log api (standard sys) (measurement sys) log (standard-IsLogged sys log logs)
            WithinLimits retryer_of-IsPacing environ f ctx settings quiet w fuel o h in
        (o0, ds, interrupted, looped, kind, added, Paced-IsWithin ds paced)
