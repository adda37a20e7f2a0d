-- ===== src/Invoke/Trace/Envelope.antt =====
-- How long `invoke` sleeps, where the multiplier of the backoff is a whole number.
use mathlib.Core.Path.{subst}
use gax_go.Prelude.{
  ℕ, zero, suc, ◌*◌, ◌^◌, ◌≤◌, ◌<◌, ◌≡◌, refl, ap, ◌∙◌, List, [], ◌∷◌, ◌++◌, some, min,
}
use gax_go.Prelude.Text.{Text}
use gax_go.Prelude.Int.{pos, ◌≤ℤ◌}
use gax_go.Apierror.Types.{ErrorApi}
use gax_go.Context.{Context}
use gax_go.Backoff.{Duration, Runtime, IsRandom, Backoff, next}
use gax_go.Backoff.Bounds.{IsValid, IsWithin, limit, advance}
use gax_go.Backoff.Growth.{IsFactor, limit-advance}
use gax_go.Feature.{Features}
use gax_go.Retryer.Policy.{Policy, retryer_of}
use gax_go.Telemetry.Metric.{Measurement}
use gax_go.Invoke.{Settings, Outcome, invoke}
use gax_go.Invoke.Deferred.{outcome_error, outcome_world}
use gax_go.Invoke.Success.{loop_context, traces}
use gax_go.Invoke.System.{System, standard}
use gax_go.Invoke.Trace.{Event, rounds}
use gax_go.Invoke.Trace.Standard.{LogsSystem, measurement}
use gax_go.Invoke.Trace.Picked.{delay_of, picked, picked-log, delays-rounds}
use gax_go.Invoke.Trace.Pauses.{invoke-pauses}

-- The delays from the n-th on lie between 1ns and an envelope.
abbrev pub IsUnder : (ℕ → ℕ) → ℕ → List Duration → Type 0
IsUnder envelope n [] = Unit
IsUnder envelope n (d ∷ ds) = (pos 1 ≤ℤ d) × (d ≤ℤ pos (envelope n)) × IsUnder envelope (suc n) ds

module _ {rt : Runtime} where
  next-advance : (n : ℕ) (b : Backoff rt) → next rt (advance n b) ≡ advance (suc n) b
  unfolding advance
  next-advance zero b = refl
  next-advance (suc n) b = next-advance n (next rt b)

  IsWithin-IsUnder :
      (envelope : ℕ → ℕ) (b : Backoff rt)
      → ((n : ℕ) → limit (advance n b) ≡ pos (envelope n))
      → (n : ℕ) (ds : List Duration) → IsWithin (advance n b) ds
      → IsUnder envelope n ds
  IsWithin-IsUnder envelope b limits n [] within = tt
  IsWithin-IsUnder envelope b limits n (d ∷ ds) (lo, hi, within) = (
    lo,
    subst (λ (l : Duration). d ≤ℤ l) (limits n) hi,
    IsWithin-IsUnder envelope b limits (suc n) ds
        (subst (λ (a : Backoff rt). IsWithin a ds) (next-advance n b) within),
  )

module _ {api : ErrorApi} {rt : Runtime} (sys : System api rt) (random : IsRandom rt) (cap : ℕ)
    (room : 30_000_000_000 ≤ cap) (policy : Policy api) where
  open sys use {World}

  module _ (log : World → List (Event (Measurement sys.Histogram))) (logs : LogsSystem sys log)
      (environ : List Text) (f : Features) (ctx : Context) (settings : Settings api (standard sys))
      (bo : Backoff rt)
      (given : settings.retry ≡ some (λ w. (some (retryer_of api rt policy bo), w)))
      (valid : IsValid cap bo) (w : World) where
    -- With a retryer of `OnErrorFunc`, `OnCodes` or `OnHTTPCodes` over a new backoff within range,
    -- whose products do not overflow, whose initial period is positive and at most the positive
    -- maximum, and whose multiplier is a whole number k of at least 1, the n-th sleep of a call of
    -- `invoke`, from 0, is for at least 1ns and at most initial * k^n, capped at the maximum. The
    -- random source is assumed to keep its range, and the surroundings to keep a log.
    pub invoke-envelope :
        (m : rt.Float) (k x i : ℕ)
        → IsFactor rt m k (suc x)
        → 0 < k
        → i ≤ x
        → bo.initial ≡ pos (suc i)
        → bo.max ≡ pos (suc x)
        → bo.multiplier ≡ m
        → bo.cur ≡ pos 0
        → (fuel : ℕ) (o : Outcome api (standard sys))
        → (invoke api (standard sys) fuel environ f ctx settings w).0 ≡ some o
        → (ds : List Duration) × (picked delay_of (log (outcome_world api (standard sys) o))
            ≡ picked delay_of (log w) ++ ds)
          × IsUnder (λ n. min (suc i * k ^ n) (suc x)) 0 ds
    unfolding advance
    invoke-envelope m k x i factor whole le ei ex em ec fuel o h =
        let c = loop_context api (standard sys) environ f ctx settings w in
        let tracing = traces api (standard sys) environ f ctx settings w in
        let (o0, ds, interrupted, _, _, added, within) =
          invoke-pauses sys random cap room policy log logs environ f ctx settings bo given valid w
            fuel o h in
        let calls : List (Event (Measurement sys.Histogram)) =
          rounds api (standard sys) c tracing 0 ds interrupted in
        (
          ds,
          picked-log delay_of (λ r. refl) (λ c. refl) api (standard sys) environ f ctx settings w
                (measurement sys c settings w (outcome_error api (standard sys) o0)
                  (outcome_world api (standard sys) o0))
                (log w) calls (log (outcome_world api (standard sys) o)) added
              ∙ ap (λ l. picked delay_of (log w) ++ l)
                  (delays-rounds api (standard sys) (Measurement sys.Histogram) c tracing 0 ds
                    interrupted),
          IsWithin-IsUnder (λ n. min (suc i * k ^ n) (suc x)) bo
              (λ n. limit-advance rt m k x factor i n bo whole le ei ex em ec) 0 ds within,
        )
