-- ===== src/Invoke/Laws/Attempt.antt =====
-- The ways in which one round of the loop goes on or returns.
use gax_go.Prelude.{
  ◌+◌, ◌≡◌, ◌↔◌, inl, inr, refl, ◌∙◌, sym, Bool-cases, Option-cases, Option, none, some, Bool,
  arith, true, false,
}
use mathlib.Core.Path.{subst}
use gax_go.Prelude.Text.{codes, contains}
use gax_go.Apierror.Types.{ErrorApi}
use gax_go.Context.{Context}
use gax_go.Retryer.{Verdict}
use gax_go.Invoke.{
  Env, Settings, LoopState, Step, done, panicked, again, attempt, on_error, ask, call_context,
  get_retryer, wrap_error,
}

module _ (api : ErrorApi) (env : Env api) (ctx : Context) (settings : Settings api env)
    (tracing : Bool) (s : LoopState api env) where
  open env use {World, Retryer}

  -- The call of this round, with its context.
  abbrev pub Calls : Option api.Err → World → Type 0
  Calls e w = env.call (call_context api env ctx tracing s.retry_count) settings s.world ≡ (e, w)

  -- The call failed, the failure is not the certificate error, and a retryer is at hand.
  abbrev pub Consults :
      api.Err → World → World → Option Retryer → (World → Option Retryer × World) → Type 0
  Consults e w w1 r factory =
      Calls (some e) w
      × (contains (api.error_text e) (codes "x509: certificate signed by unknown authority")
          ≡ false)
      × (settings.retry ≡ some factory)
      × (get_retryer api env s.retryer factory w ≡ (r, w1))

  -- What a round may do, and when.
  pub data Round : Step api env → Type 0 where
    succeeds : (w : World) → Calls none w → Round (done none w)
    untrusted :
        (e : api.Err) (w : World)
        → Calls (some e) w
        → contains (api.error_text e) (codes "x509: certificate signed by unknown authority") ≡ true
        → Round (done (some e) w)
    no_factory :
        (e : api.Err) (w : World)
        → Calls (some e) w
        → contains (api.error_text e) (codes "x509: certificate signed by unknown authority")
          ≡ false
        → settings.retry ≡ none
        → Round (done (some (wrap_error api env e)) w)
    no_retryer :
        (e : api.Err) (w w1 : World) (factory : World → Option Retryer × World)
        → Consults e w w1 none factory
        → Round (done (some (wrap_error api env e)) w1)
    retry_panics :
        (e : api.Err) (w w1 : World) (factory : World → Option Retryer × World) (r : Retryer)
        → Consults e w w1 (some r) factory
        → env.retry r (wrap_error api env e) w1 ≡ none
        → Round (panicked (some (wrap_error api env e)) w1)
    refused :
        (e : api.Err) (w w1 w2 : World) (factory : World → Option Retryer × World) (r r' : Retryer)
        (v : Verdict)
        → Consults e w w1 (some r) factory
        → env.retry r (wrap_error api env e) w1 ≡ some (v, r', w2)
        → v.should_retry ≡ false
        → Round (done (some (wrap_error api env e)) w2)
    interrupted :
        (e e' : api.Err) (w w1 w2 w3 : World) (factory : World → Option Retryer × World)
        (r r' : Retryer) (v : Verdict)
        → Consults e w w1 (some r) factory
        → env.retry r (wrap_error api env e) w1 ≡ some (v, r', w2)
        → v.should_retry ≡ true
        → env.sleep ctx v.pause w2 ≡ (some e', w3)
        → Round (done (some e') w3)
    retries :
        (e : api.Err) (w w1 w2 w3 : World) (factory : World → Option Retryer × World)
        (r r' : Retryer) (v : Verdict)
        → Consults e w w1 (some r) factory
        → env.retry r (wrap_error api env e) w1 ≡ some (v, r', w2)
        → v.should_retry ≡ true
        → env.sleep ctx v.pause w2 ≡ (none, w3)
        → Round (again (record { retry_count = s.retry_count + 1; retryer = some r'; world = w3 }))

  attempt_of_call :
      (e : api.Err) (w : World)
      → Calls (some e) w
      → attempt api env ctx settings tracing s
        ≡ on_error api env ctx settings s.retry_count s.retryer e w
  unfolding attempt
  attempt_of_call e w c = ground arith

  attempt_of_Consults :
      (e : api.Err) (w w1 : World) (factory : World → Option Retryer × World) (r : Retryer)
      → Consults e w w1 (some r) factory
      → attempt api env ctx settings tracing s
        ≡ ask api env ctx s.retry_count r (wrap_error api env e) w1
  unfolding on_error
  attempt_of_Consults e w w1 factory r (c, safe, f, g) = attempt_of_call e w c ∙ ground arith

  -- The relation is sound: what it allows is what the round does.
  attempt_of_Round : (p : Step api env) → Round p → attempt api env ctx settings tracing s ≡ p
  unfolding on_error ask attempt
  attempt_of_Round p (succeeds w c) = ground arith
  attempt_of_Round p (untrusted e w c bad) = attempt_of_call e w c ∙ ground arith
  attempt_of_Round p (no_factory e w c safe f) = attempt_of_call e w c ∙ ground arith
  attempt_of_Round p (no_retryer e w w1 factory (c, safe, f, g)) =
      attempt_of_call e w c ∙ ground arith
  attempt_of_Round p (retry_panics e w w1 factory r k a) =
      attempt_of_Consults e w w1 factory r k ∙ ground arith
  attempt_of_Round p (refused e w w1 w2 factory r r' v k a b) =
      attempt_of_Consults e w w1 factory r k ∙ ground arith
  attempt_of_Round p (interrupted e e' w w1 w2 w3 factory r r' v k a b d) =
      attempt_of_Consults e w w1 factory r k ∙ ground arith
  attempt_of_Round p (retries e w w1 w2 w3 factory r r' v k a b d) =
      attempt_of_Consults e w w1 factory r k ∙ ground arith

  Does : Type 0
  Does = (p : Step api env) × Round p

  -- Every round is one that the relation allows.
  ask-Round :
      (e : api.Err) (w w1 : World) (factory : World → Option Retryer × World) (r : Retryer)
      → Consults e w w1 (some r) factory
      → Does
  unfolding Does
  ask-Round e w w1 factory r k = go (env.retry r (wrap_error api env e) w1) refl
    where
      slept :
          (v : Verdict) (r' : Retryer) (w2 : World)
          → env.retry r (wrap_error api env e) w1 ≡ some (v, r', w2)
          → v.should_retry ≡ true
          → (x : Option api.Err × World) → env.sleep ctx v.pause w2 ≡ x
          → Does
      slept v r' w2 a b (none, w3) d = (_, retries e w w1 w2 w3 factory r r' v k a b d)
      slept v r' w2 a b (some e', w3) d = (_, interrupted e e' w w1 w2 w3 factory r r' v k a b d)

      go :
          (x : Option (Verdict × Retryer × World))
          → env.retry r (wrap_error api env e) w1 ≡ x
          → Does
      go none a = (_, retry_panics e w w1 factory r k a)
      go (some (v, r', w2)) a = elim (Bool-cases v.should_retry) [
        | inl b ↦ slept v r' w2 a b (env.sleep ctx v.pause w2) refl
        | inr b ↦ (_, refused e w w1 w2 factory r r' v k a b)
      ]

  on_error-Round : (e : api.Err) (w : World) → Calls (some e) w → Does
  unfolding Does
  on_error-Round e w c =
      elim (Bool-cases
        (contains (api.error_text e) (codes "x509: certificate signed by unknown authority"))) [
          | inl bad ↦ (_, untrusted e w c bad)
          | inr safe ↦ elim (Option-cases settings.retry) [
            | inl f ↦ (_, no_factory e w c safe f)
            | inr (factory, f) ↦ go factory safe f (get_retryer api env s.retryer factory w) refl
          ]
        ]
    where
      go :
          (factory : World → Option Retryer × World)
          → contains (api.error_text e) (codes "x509: certificate signed by unknown authority")
            ≡ false
          → settings.retry ≡ some factory
          → (x : Option Retryer × World) → get_retryer api env s.retryer factory w ≡ x
          → Does
      go factory safe f (none, w1) g = (_, no_retryer e w w1 factory (c, safe, f, g))
      go factory safe f (some r, w1) g = ask-Round e w w1 factory r (c, safe, f, g)

  attempt-Does : Does
  unfolding Does
  attempt-Does =
      go (env.call (call_context api env ctx tracing s.retry_count) settings s.world) refl
    where
      go :
          (x : Option api.Err × World)
          → env.call (call_context api env ctx tracing s.retry_count) settings s.world ≡ x
          → Does
      go (none, w) c = (_, succeeds w c)
      go (some e, w) c = on_error-Round e w c

  -- A round does `p` exactly if one of eight cases allows it: the call succeeds; it fails by the
  -- certificate error, which is returned as it is; there is no factory, or it gives no retryer, or
  -- the retryer refuses, and the wrapped error is returned; the retryer panics; the sleep is
  -- interrupted, and its error is returned; or the loop goes on with a count one higher.
  pub attempt-Round : (p : Step api env) → (attempt api env ctx settings tracing s ≡ p) ↔ Round p
  unfolding Does
  attempt-Round p =
      let (q, r) = attempt-Does in
      (λ e. subst Round (sym (attempt_of_Round q r) ∙ e) r, attempt_of_Round p)
