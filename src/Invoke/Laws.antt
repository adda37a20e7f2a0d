-- ===== src/Invoke/Laws.antt =====
-- What one round does, and what holds of every round.
pub mod Attempt
pub mod Described
use gax_go.Prelude.{
  Bool, ℕ, zero, suc, ◌+◌, ◌<◌, ◌≡◌, ◌≢◌, ◌↔◌, ◌⊎◌, inl, inr, refl, sym, ◌∙◌, ap, Option, none,
  some, [], ◌∷◌, arith, true, false, if◌then◌else◌,
}
use gax_go.Prelude.Text.{Text, codes, itoa, text_eq, text_eq_refl}
use gax_go.Apierror.Types.{ErrorApi}
use gax_go.Context.{Context, Key, value}
use gax_go.Callctx.{telemetry_from_context, odd_length}
use gax_go.Callctx.Telemetry.{with_telemetry_context_lem}
use gax_go.Invoke.{
  Env, Settings, LoopState, Step, start, attempt, again, call_context, with_retry_count,
}
use gax_go.Invoke.Loop.{Rounds}
use gax_go.Invoke.Laws.Attempt.{
  attempt-Round, Round, succeeds, untrusted, no_factory, no_retryer, retry_panics, refused,
  interrupted, retries,
}

module _ (api : ErrorApi) (env : Env api) (ctx : Context) (settings : Settings api env) where
  again-retry_count :
      (tracing : Bool) (s t : LoopState api env)
      → attempt api env ctx settings tracing s ≡ again t
      → t.retry_count ≡ s.retry_count + 1
  again-retry_count tracing s t e =
      go (again t) ((attempt-Round api env ctx settings tracing s (again t)).0 e) refl
    where
      go :
          (p : Step api env)
          → Round api env ctx settings tracing s p
          → p ≡ again t
          → t.retry_count ≡ s.retry_count + 1
      go p (retries e w w1 w2 w3 factory r r' v k a b d) q = ground arith
      go p (succeeds w c) q = ground arith
      go p (untrusted e w c bad) q = ground arith
      go p (no_factory e w c safe f) q = ground arith
      go p (no_retryer e w w1 factory k) q = ground arith
      go p (retry_panics e w w1 factory r k a) q = ground arith
      go p (refused e w w1 w2 factory r r' v k a b) q = ground arith
      go p (interrupted e e' w w1 w2 w3 factory r r' v k a b d) q = ground arith

  Rounds-retry_count :
      (tracing : Bool) (n : ℕ) (s t : LoopState api env)
      → Rounds api env ctx settings tracing n s t
      → t.retry_count ≡ s.retry_count + n
  Rounds-retry_count tracing zero s t rounds =
      omega (arith, ap (λ (u : LoopState api env). u.retry_count) rounds)
  Rounds-retry_count tracing (suc n) s t (u, step, rounds) =
      omega (arith, again-retry_count tracing s u step, Rounds-retry_count tracing n u t rounds)

  call_context_lem :
      (n : ℕ)
      → let c = call_context api env ctx true n in
        (telemetry_from_context c (codes "resend_count") ≡ some (itoa n))
        × (value c Key.header_key ≡ value ctx Key.header_key)
        × (value c Key.logger_key ≡ value ctx Key.logger_key)
        × (c.deadline ≡ ctx.deadline)
  unfolding call_context with_retry_count odd_length text_eq
  call_context_lem n =
      let (c, e, given, headers, log, _, _, time) =
        with_telemetry_context_lem ctx (codes "resend_count" ∷ itoa n ∷ []) refl in
      rw (e, call_context, with_retry_count) (given (codes "resend_count"), headers, log, time)

  -- With tracing on, the context of the call after n retries carries n in decimal as
  -- "resend_count", and keeps the headers, the logger and the deadline of the given context.
  call_context-retry_count :
      (n : ℕ) (w : env.World) (t : LoopState api env)
      → Rounds api env ctx settings true n (start api env w) t
      → let c = call_context api env ctx true t.retry_count in
        (telemetry_from_context c (codes "resend_count") ≡ some (itoa n))
        × (value c Key.header_key ≡ value ctx Key.header_key)
        × (value c Key.logger_key ≡ value ctx Key.logger_key)
        × (c.deadline ≡ ctx.deadline)
  call_context-retry_count n w t rounds =
      let e : t.retry_count ≡ n =
        omega (arith, Rounds-retry_count true n (start api env w) t rounds) in
      rw e (call_context_lem n)
