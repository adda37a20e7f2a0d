-- ===== src/V1.antt =====
-- Version 1: call_option.go, header.go and invoke.go of the root. Its types are those of version 2, and
-- each function is a call of the one of version 2.
use gax_go.Prelude.{ℕ, List, Option}
use gax_go.Prelude.Text.{Text}
use gax_go.Apierror.Types.{ErrorApi}
use gax_go.Backoff.{Duration, Runtime, Backoff}
use gax_go.CallOption.{CallOption, retryer_option, grpc_opt}
use gax_go.Context.{Context}
use gax_go.Feature.{Features}
use gax_go.Header.{x_goog_header}
use gax_go.Retryer.{Retryer, on_codes}
use gax_go.Invoke.{Env, Outcome, invoke_with_options}
use gax_go.Invoke.System.{System, sleep}

module _ {World R GrpcOption Metrics : Type 0} where
  abbrev pub v1_with_retry :
      Option (World → Option R × World) → CallOption World R GrpcOption Metrics
  v1_with_retry fn = retryer_option fn

  abbrev pub v1_with_grpc_options : List GrpcOption → CallOption World R GrpcOption Metrics
  v1_with_grpc_options opt = grpc_opt opt

abbrev pub v1_on_codes : (api : ErrorApi) (rt : Runtime) → List ℕ → Backoff rt → Retryer api rt
v1_on_codes api rt cc bo = on_codes api rt cc bo

abbrev pub v1_x_goog_header : List Text → Option Text
v1_x_goog_header keyval = x_goog_header keyval

module _ (api : ErrorApi) (env : Env api) where
  abbrev pub v1_invoke :
      ℕ
      → List Text
      → Features
      → Context
      → List (CallOption (Env.World env) (Env.Retryer env) (Env.GrpcOption env) (Env.Metrics env))
      → Env.World env
      → Option (Outcome api env) × Features
  v1_invoke fuel environ f ctx opts w = invoke_with_options api env fuel environ f ctx opts w

abbrev pub v1_sleep :
    {api : ErrorApi} {rt : Runtime} (sys : System api rt)
    → Context
    → Duration
    → System.World sys
    → Option (ErrorApi.Err api) × System.World sys
v1_sleep sys ctx d w = sleep sys ctx d w
