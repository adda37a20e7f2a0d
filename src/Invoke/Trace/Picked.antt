-- ===== src/Invoke/Trace/Picked.antt =====
-- What a log has of one kind.
use gax_go.Prelude.{
  ℕ, suc, ◌≡◌, refl, sym, ap, ◌∙◌, List, [], ◌∷◌, ◌++◌, append-nil, append_assoc, Option, none,
  some, Bool, true, false, if◌then◌else◌,
}
use gax_go.Prelude.Text.{Text}
use gax_go.Apierror.Types.{ErrorApi}
use gax_go.Context.{Context}
use gax_go.Backoff.{Duration}
use gax_go.Feature.{Features}
use gax_go.Invoke.{Env, Settings, derives, with_timeout}
use gax_go.Invoke.Success.{measures}
use gax_go.Invoke.Trace.{Event, called, slept, recorded, cancelled, reported, rounds, deferred}

-- The context of a call of the stub.
abbrev pub context_of : {Report : Type 0} → Event Report → List Context
context_of (called c) = c ∷ []
context_of e = []

-- How long a sleep is to last.
abbrev pub delay_of : {Report : Type 0} → Event Report → List Duration
delay_of (slept c d) = d ∷ []
delay_of e = []

module _ {Report A : Type 0} (pick : Event Report → List A) where
  abbrev pub picked : List (Event Report) → List A
  picked [] = []
  picked (e ∷ log) = pick e ++ picked log

  picked-append : (xs ys : List (Event Report)) → picked (xs ++ ys) ≡ picked xs ++ picked ys
  picked-append [] ys = refl
  picked-append (e ∷ xs) ys =
      ap (λ l. pick e ++ l) (picked-append xs ys)
      ∙ sym (append_assoc (pick e) (picked xs) (picked ys))

  module _ (no_report : (r : Report) → pick (recorded r) ≡ [])
      (no_cancel : (c : Context) → pick (cancelled c) ≡ []) where
    picked-deferred :
        (records own : Bool) (made : Option Report) (c : Context)
        → picked ((if records then reported made else []) ++ (if own then cancelled c ∷ [] else []))
          ≡ []
    picked-deferred true true none c = rw (no_cancel c) refl
    picked-deferred true true (some r) c = rw (no_report r, no_cancel c) refl
    picked-deferred true false none c = refl
    picked-deferred true false (some r) c = rw (no_report r) refl
    picked-deferred false true made c = rw (no_cancel c) refl
    picked-deferred false false made c = refl

    -- Behind the rounds the deferred functions add nothing of the kind.
    pub picked-log :
        (api : ErrorApi) (env : Env api) (environ : List Text) (f : Features) (ctx : Context)
        (settings : Settings api env) (w : Env.World env) (made : Option Report)
        (before calls after : List (Event Report))
        → after ≡ before ++ (calls ++ deferred api env environ f ctx settings w made)
        → picked after ≡ picked before ++ picked calls
    picked-log api env environ f ctx settings w made before calls after e =
        let last : List (Event Report) = deferred api env environ f ctx settings w made in
        ap picked e
        ∙ picked-append before (calls ++ last)
        ∙ ap (λ l. picked before ++ l)
            (picked-append calls last
              ∙ ap (λ l. picked calls ++ l)
                  (picked-deferred (measures api env environ f ctx settings w)
                    (derives api env ctx settings) made (with_timeout api env ctx settings w))
              ∙ append-nil (picked calls))

module _ (api : ErrorApi) (env : Env api) (Report : Type 0) (ctx : Context) (tracing : Bool) where
  pub delays-rounds :
      (n : ℕ) (ds : List Duration) (interrupted : Bool)
      → picked {Report = Report} delay_of (rounds api env ctx tracing n ds interrupted) ≡ ds
  delays-rounds n [] true = refl
  delays-rounds n [] false = refl
  delays-rounds n (d ∷ ds) interrupted = ap (λ l. d ∷ l) (delays-rounds (suc n) ds interrupted)
