-- ===== src/Invoke/Deadline/Standard.antt =====
-- `invoke` with a retryer of the package and a deadline comes to an end.
use mathlib.Core.Path.{subst}
use gax_go.Prelude.{
  ℕ, ◌+◌, ◌-◌, ◌<◌, ◌≤◌, ◌≡◌, ◌≢◌, ◌⊎◌, refl, sym, ap, ◌∙◌, arith, List, Option, none, some, true,
  Bool-cases, inl, inr,
}
use native.Mathlib.Decide.{dec_lt}
use gax_go.Prelude.Int.{pos, negsuc, ◌≤ℤ◌}
use gax_go.Prelude.Text.{Text}
use gax_go.Apierror.Types.{ErrorApi}
use gax_go.Context.{Context}
use gax_go.Backoff.{Duration, Runtime, IsRandom, Backoff, next}
use gax_go.Backoff.Bounds.{IsValid, pause_lem}
use gax_go.Feature.{Features}
use gax_go.Retryer.{Retryer, Verdict}
use gax_go.Retryer.Policy.{Policy, retryer_of, retry-retryer_of}
use gax_go.Invoke.{Settings, returned, invoke, start}
use gax_go.Invoke.Deadline.{IsTimed, loop-deadline}
use gax_go.Invoke.Progress.{HasRetryer}
use gax_go.Invoke.Progress.Standard.{HasBackoff}
use gax_go.Invoke.Success.{measures, traces, loop_context, loop_world, invoke_of_loop}
use gax_go.Invoke.System.{System, Channel, standard, sleep, put_seed}
use gax_go.Invoke.Trace.Handed.{deadline_given, deadline-loop_context}

-- What packages time and context say of a clock in nanoseconds: a timer fires no earlier than its
-- duration, and a context that is done has an error. A wait that begins when the deadline has passed
-- finds the context done; where its timer has fired too by the time that `select` looks, Go chooses
-- one of the two uniformly at random. `luck` is how often it will choose the timer in such a case.
pub record KeepsTime {api : ErrorApi} {rt : Runtime} (sys : System api rt)
    (clock luck : System.World sys → ℕ) : Type 0 where
  pub clock-call :
      (ctx : Context) (settings : Settings api (standard sys)) (w : System.World sys)
      → (clock w ≤ clock (sys.call ctx settings w).1) × (luck (sys.call ctx settings w).1 ≤ luck w)
  pub clock-set_seed :
      (s : Runtime.Seed rt) (w : System.World sys)
      → (clock w ≤ clock (sys.set_seed s w)) × (luck (sys.set_seed s w) ≤ luck w)
  pub clock-new_transport_data :
      (w : System.World sys)
      → (clock w ≤ clock (sys.new_transport_data w).1)
        × (luck (sys.new_transport_data w).1 ≤ luck w)
  pub wait-timer_fired :
      (ctx : Context) (n : ℕ) (w : System.World sys)
      → (sys.wait ctx (pos n) w).0 ≡ Channel.timer_fired
      → clock w + n ≤ clock (sys.wait ctx (pos n) w).1
  pub luck-wait :
      (ctx : Context) (d : Duration) (w : System.World sys) → luck (sys.wait ctx d w).1 ≤ luck w
  pub wait-deadline :
      (ctx : Context) (n t : ℕ) (w : System.World sys)
      → 1 ≤ n
      → ctx.deadline ≡ some (pos t)
      → t ≤ clock w
      → (sys.wait ctx (pos n) w).0 ≡ Channel.timer_fired
      → luck (sys.wait ctx (pos n) w).1 < luck w
  pub ctx_err-context_done :
      (ctx : Context) (d : Duration) (w : System.World sys)
      → (sys.wait ctx d w).0 ≡ Channel.context_done
      → sys.ctx_err ctx (sys.wait ctx d w).1 ≢ none

module _ {api : ErrorApi} {rt : Runtime} (sys : System api rt) (clock luck : System.World sys → ℕ)
    (time : KeepsTime sys clock luck) where
  open sys use {World}

  -- A sleep that is not interrupted is one whose timer has fired.
  fired :
      (ctx : Context) (d : Duration) (w w' : World)
      → sleep sys ctx d w ≡ (none, w')
      → ((sys.wait ctx d w).0 ≡ Channel.timer_fired) × ((sys.wait ctx d w).1 ≡ w')
  unfolding sleep
  fired ctx d w w' e = go (sys.wait ctx d w).0 refl
    where
      go :
          (channel : Channel)
          → (sys.wait ctx d w).0 ≡ channel
          → ((sys.wait ctx d w).0 ≡ Channel.timer_fired) × ((sys.wait ctx d w).1 ≡ w')
      go Channel.timer_fired q =
          let slept : sleep sys ctx d w ≡ (none, (sys.wait ctx d w).1) = rw (q, sleep) refl in
          (q, ap (λ x. x.1) (sym slept ∙ e))
      go Channel.context_done q =
          let slept : sleep sys ctx d w
              ≡ (sys.ctx_err ctx (sys.wait ctx d w).1, (sys.wait ctx d w).1) =
            rw (q, sleep) refl in
          absurd (time.ctx_err-context_done ctx d w q (ap (λ x. x.0) (sym slept ∙ e)))

  slept :
      (ctx : Context) (d : Duration) (w w' : World) (t : ℕ)
      → pos 1 ≤ℤ d
      → ctx.deadline ≡ some (pos t)
      → sleep sys ctx d w ≡ (none, w')
      → (clock w < clock w') × (luck w' ≤ luck w) × ((clock w < t) ⊎ (luck w' < luck w))
  slept ctx (pos n) w w' t at_least deadline e =
      let (channel, same) = fired ctx (pos n) w w' e in
      let later : clock w + n ≤ clock w' =
        subst (λ x. clock w + n ≤ clock x) same (time.wait-timer_fired ctx n w channel) in
      let kept : luck w' ≤ luck w =
        subst (λ x. luck x ≤ luck w) same (time.luck-wait ctx (pos n) w) in
      (
        omega arith,
        kept,
        elim (dec_lt (clock w) t) [
          | yes before ↦ inl before
          | no late ↦ inr (
              subst (λ x. luck x < luck w) same
                (time.wait-deadline ctx n t w (omega arith) deadline (omega arith) channel))
        ],
      )
  slept ctx (negsuc n) w w' t at_least deadline e = absurd (omega arith)

  module _ (random : IsRandom rt) (cap : ℕ) (room : 30_000_000_000 ≤ cap)
      (policy : Policy api) where
    abbrev Holds : Retryer api rt → Type 0
    Holds = HasBackoff sys random cap room policy

    retryer_of-answers :
        (bo : Backoff rt) (err : api.Err) (w : World)
        → IsValid cap bo
        → (v : Verdict) × (r' : Retryer api rt) × (w' : World) × ((standard sys).retry
              (retryer_of api rt policy bo)
              err
              w
            ≡ some (v, r', w'))
          × ((clock w ≤ clock w') × (luck w' ≤ luck w))
          × (v.should_retry ≡ true → pos 1 ≤ℤ v.pause)
          × Holds r'
    retryer_of-answers bo err w valid =
        let (v, r', s', e, answer) =
          retry-retryer_of api random cap room policy bo err (sys.seed w) valid in
        let (_, _, _, _, _, valid') = pause_lem random cap bo (sys.seed w) room valid in
        elim answer [
          | inl (_, should, lo, _, moved) ↦ (
            v,
            r',
            sys.set_seed s' w,
            ap (put_seed sys w) e,
            time.clock-set_seed s' w,
            λ _. lo,
            (next rt bo, moved, valid'),
          )
          | inr (_, refused, _, same, _) ↦ (
            v,
            r',
            sys.set_seed s' w,
            ap (put_seed sys w) e,
            time.clock-set_seed s' w,
            λ should. cc,
            (bo, same, valid),
          )
        ]

    standard-IsTimed : IsTimed api (standard sys) clock luck Holds
    standard-IsTimed = record {
      clock-call = time.clock-call;
      answers = λ r err w (bo, made, valid). rw made (retryer_of-answers bo err w valid);
      sleep-deadline = slept;
    }

    module _ (environ : List Text) (f : Features) (ctx : Context)
        (settings : Settings api (standard sys)) (bo : Backoff rt)
        (given : settings.retry ≡ some (λ w. (some (retryer_of api rt policy bo), w)))
        (valid : IsValid cap bo) (w : World) where
      made :
          (factory : World → Option (Retryer api rt) × World) (w1 : World)
          → settings.retry ≡ some factory
          → HasRetryer Holds (factory w1).0
            × ((clock w1 ≤ clock (factory w1).1) × (luck (factory w1).1 ≤ luck w1))
      made factory w1 e =
          let same : (λ (w : World). (some (retryer_of api rt policy bo), w)) ≡ factory = cc in
          subst
            (λ (g : World → Option (Retryer api rt) × World).
              HasRetryer Holds (g w1).0 × ((clock w1 ≤ clock (g w1).1) × (luck (g w1).1 ≤ luck w1)))
            same ((bo, refl, valid), (omega arith, omega arith))

      later-loop_world :
          (clock w ≤ clock (loop_world api (standard sys) environ f ctx settings w))
          × (luck (loop_world api (standard sys) environ f ctx settings w) ≤ luck w)
      later-loop_world = elim (Bool-cases (measures api (standard sys) environ f ctx settings w)) [
        | inl on ↦ rw on (time.clock-new_transport_data w)
        | inr off ↦ rw off (omega arith, omega arith)
      ]

      -- With a retryer of `OnErrorFunc`, `OnCodes` or `OnHTTPCodes` over a backoff within range,
      -- whose products do not overflow, and a deadline, of the caller or else by the timeout of the
      -- settings, a call of `invoke` returns, whatever the stub does, with as many rounds as fuel
      -- as there are nanoseconds up to the deadline and sleeps behind it that `select` lets end by
      -- their timer, and one more. It is assumed that the random source keeps its range, and that
      -- the surroundings keep time, where the number of such sleeps is finite.
      pub invoke-deadline :
          (t fuel : ℕ)
          → deadline_given api (standard sys) environ f ctx settings w ctx.deadline ≡ some (pos t)
          → (t - clock w) + luck w < fuel
          → (e : Option api.Err) × (w' : World) × ((invoke api
                (standard sys)
                fuel
                environ
                f
                ctx
                settings
                w).0
              ≡ some (returned e w'))
      invoke-deadline t fuel deadline enough =
          let (e, w0, looped) =
            loop-deadline api (standard sys) clock luck Holds standard-IsTimed
              (loop_context api (standard sys) environ f ctx settings w) settings
              (traces api (standard sys) environ f ctx settings w) t
              (deadline-loop_context api (standard sys) environ f ctx settings w ∙ deadline) made
              fuel
              (start api (standard sys) (loop_world api (standard sys) environ f ctx settings w)) tt
              (omega (arith, later-loop_world)) in
          let (w', ended) =
            invoke_of_loop api (standard sys) environ f ctx settings w fuel e w0 looped in
          (e, w', ended)
