-- ===== src/Invoke/Trace.antt =====
-- What `invoke` does to its surroundings, in order, where they keep a log of it.
pub mod Rounds
pub mod Whole
pub mod Standard
pub mod Pauses
pub mod Picked
pub mod Handed
pub mod Envelope
pub mod Contexts
use gax_go.Prelude.{ℕ, suc, ◌≡◌, ◌⊎◌, List, [], ◌∷◌, ◌++◌, Option, none, some, Bool, true, false}
use gax_go.Apierror.Types.{ErrorApi}
use gax_go.Context.{Context}
use gax_go.Backoff.{Duration}
use gax_go.Retryer.{Verdict}
use gax_go.Prelude.{if◌then◌else◌}
use gax_go.Prelude.Text.{Text}
use gax_go.Feature.{Features}
use gax_go.Invoke.{Env, Settings, call_context, derives, with_timeout}
use gax_go.Invoke.Success.{measures, loop_context}

-- A call of the stub, a sleep, a report that the recording of metrics makes, and the cancellation of
-- a context.
pub data Event (Report : Type 0) : Type 0 where
  called : Context → Event Report
  slept : Context → Duration → Event Report
  recorded : Report → Event Report
  cancelled : Context → Event Report

-- What the recording adds, if it reports anything.
abbrev pub reported : {Report : Type 0} → Option Report → List (Event Report)
reported none = []
reported (some r) = recorded r ∷ []

-- Every effect adds its event at the end of the log, and all else leaves the log alone.
pub record IsLogged (api : ErrorApi) (env : Env api) (Report : Type 0)
    (report : Context
      → Settings api env
      → Env.World env
      → Option (ErrorApi.Err api)
      → Env.World env
      → Option Report)
    (log : Env.World env → List (Event Report)) : Type 0 where
  pub log-call :
      (ctx : Context) (settings : Settings api env) (w : Env.World env)
      → log (env.call ctx settings w).1 ≡ log w ++ called ctx ∷ []
  pub log-retry :
      (r r' : Env.Retryer env) (err : ErrorApi.Err api) (w w' : Env.World env) (v : Verdict)
      → env.retry r err w ≡ some (v, r', w')
      → log w' ≡ log w
  pub log-sleep :
      (ctx : Context) (d : Duration) (w : Env.World env)
      → log (env.sleep ctx d w).1 ≡ log w ++ slept ctx d ∷ []
  pub log-new_transport_data : (w : Env.World env) → log (env.new_transport_data w).1 ≡ log w
  pub log-record_metric :
      (ctx : Context) (settings : Settings api env) (began w : Env.World env)
      (e : Option (ErrorApi.Err api))
      → log (env.record_metric ctx settings began e w)
        ≡ log w ++ reported (report ctx settings began e w)
  pub log-cancel :
      (ctx : Context) (w : Env.World env) → log (env.cancel ctx w) ≡ log w ++ cancelled ctx ∷ []

-- Which delays a retryer may ask for, one after another.
pub record IsPacing (api : ErrorApi) (env : Env api)
    (Within : Env.Retryer env → List Duration → Type 0) : Type 0 where
  pub none_yet : (r : Env.Retryer env) → Within r []
  pub one_more :
      (r r' : Env.Retryer env) (err : ErrorApi.Err api) (w w' : Env.World env) (v : Verdict)
      (ds : List Duration)
      → env.retry r err w ≡ some (v, r', w')
      → v.should_retry ≡ true
      → Within r' ds
      → Within r (v.pause ∷ ds)

module _ (api : ErrorApi) (env : Env api) {Report : Type 0} (ctx : Context) (tracing : Bool) where
  -- Calls from the n-th on and a sleep behind each, with the delays given; a last call follows
  -- unless the last sleep was interrupted.
  abbrev pub rounds : ℕ → List Duration → Bool → List (Event Report)
  rounds n [] true = []
  rounds n [] false = called (call_context api env ctx tracing n) ∷ []
  rounds n (d ∷ ds) interrupted =
      called (call_context api env ctx tracing n) ∷ slept ctx d ∷ rounds (suc n) ds interrupted

module _ (api : ErrorApi) (env : Env api) where
  -- The delays are those of a retryer that the settings have made, if there are any.
  abbrev pub Paced :
      (Env.Retryer env → List Duration → Type 0)
      → Settings api env
      → Option (Env.Retryer env)
      → List Duration
      → Type 0
  Paced Within settings (some r) ds = Within r ds
  Paced Within settings none ds =
      (ds ≡ [])
      ⊎ ((factory : Env.World env → Option (Env.Retryer env) × Env.World env) × (w : Env.World env)
          × (r : Env.Retryer env) × (settings.retry ≡ some factory)
          × ((factory w).0 ≡ some r)
          × Within r ds)

module _ (api : ErrorApi) (env : Env api) {Report : Type 0} (environ : List Text) (f : Features)
    (ctx : Context) (settings : Settings api env) (w : Env.World env) where
  -- What the deferred functions add: METRICS records, and a context of its own is cancelled.
  abbrev pub deferred : Option Report → List (Event Report)
  deferred made =
      (if measures api env environ f ctx settings w then reported made else [])
      ++ (if derives api env ctx settings
          then cancelled (with_timeout api env ctx settings w) ∷ []
          else [])
