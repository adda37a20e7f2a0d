-- ===== src/Invoke/Deferred.antt =====
-- What the deferred functions of `invoke` leave of an outcome.
use gax_go.Prelude.{◌≡◌, refl, sym, ap, Option, none, some, Bool, true, false, if◌then◌else◌}
use gax_go.Apierror.Types.{ErrorApi}
use gax_go.Context.{Context}
use gax_go.Invoke.{Env, Settings, Outcome, returned, crashed, finish, release}

module _ (api : ErrorApi) (env : Env api) where
  open env use {World}

  pub finish-returned :
      (ctx : Context) (settings : Settings api env) (began : World) (o : Option (Outcome api env))
      (e : Option api.Err) (w : World)
      → finish api env ctx settings began o ≡ some (returned e w)
      → (w0 : World) × (o ≡ some (returned e w0)) × (w ≡ env.record_metric ctx settings began e w0)
  unfolding finish
  finish-returned ctx settings began (some (returned e0 w0)) e w h =
      let e_eq : e0 ≡ e = cc in (w0, ap (λ x. some (returned x w0)) e_eq, rw (← e_eq) (cc))
  finish-returned ctx settings began (some (crashed e0 w0)) e w h = cc
  finish-returned ctx settings began none e w h = cc

  pub release-returned :
      (own : Bool) (ctx : Context) (o : Option (Outcome api env)) (e : Option api.Err) (w : World)
      → release api env own ctx o ≡ some (returned e w)
      → (w0 : World) × (o ≡ some (returned e w0)) × (w ≡ (if own then env.cancel ctx w0 else w0))
  unfolding release
  release-returned true ctx (some (returned e0 w0)) e w h =
      let e_eq : e0 ≡ e = cc in (w0, ap (λ x. some (returned x w0)) e_eq, cc)
  release-returned true ctx (some (crashed e0 w0)) e w h = cc
  release-returned true ctx none e w h = cc
  release-returned false ctx o e w h = (w, h, refl)

  -- What an outcome has: the error, and the state that it leaves.
  abbrev pub outcome_error : Outcome api env → Option api.Err
  outcome_error (returned e w) = e
  outcome_error (crashed e w) = e

  abbrev pub outcome_world : Outcome api env → World
  outcome_world (returned e w) = w
  outcome_world (crashed e w) = w

  abbrev pub put_world : World → Outcome api env → Outcome api env
  put_world w (returned e _) = returned e w
  put_world w (crashed e _) = crashed e w

  pub outcome_world-put_world :
      (w : World) (o : Outcome api env) → outcome_world (put_world w o) ≡ w
  outcome_world-put_world w (returned e w0) = refl
  outcome_world-put_world w (crashed e w0) = refl

  pub put_world-put_world :
      (w w' : World) (o : Outcome api env) → put_world w (put_world w' o) ≡ put_world w o
  put_world-put_world w w' (returned e w0) = refl
  put_world-put_world w w' (crashed e w0) = refl

  put_world-outcome_world : (o : Outcome api env) → put_world (outcome_world o) o ≡ o
  put_world-outcome_world (returned e w0) = refl
  put_world-outcome_world (crashed e w0) = refl

  -- Both leave the kind of the outcome and its error alone.
  pub finish_outcome :
      (ctx : Context) (settings : Settings api env) (began : World) (x : Option (Outcome api env))
      (o : Outcome api env)
      → finish api env ctx settings began x ≡ some o
      → (o0 : Outcome api env) × (x ≡ some o0)
        × (o
            ≡ put_world
                (env.record_metric ctx settings began (outcome_error o0) (outcome_world o0))
                o0)
  unfolding finish
  finish_outcome ctx settings began (some (returned e w)) o h = (returned e w, refl, cc)
  finish_outcome ctx settings began (some (crashed e w)) o h = (crashed e w, refl, cc)
  finish_outcome ctx settings began none o h = cc

  pub release_outcome :
      (own : Bool) (ctx : Context) (x : Option (Outcome api env)) (o : Outcome api env)
      → release api env own ctx x ≡ some o
      → (o0 : Outcome api env) × (x ≡ some o0)
        × (o ≡ put_world (if own then env.cancel ctx (outcome_world o0) else outcome_world o0) o0)
  unfolding release
  release_outcome true ctx (some (returned e w)) o h = (returned e w, refl, cc)
  release_outcome true ctx (some (crashed e w)) o h = (crashed e w, refl, cc)
  release_outcome true ctx none o h = cc
  release_outcome false ctx x o h = (o, h, sym (put_world-outcome_world o))
