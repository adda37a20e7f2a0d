-- ===== src/CallOption.antt =====
-- `CallSettings` and the call options of v2/call_option.go. The types of retryers, gRPC options and
-- client metrics are parameters, and so is the state `World` that a retryer's factory may read and
-- change.
pub mod Laws
use gax_go.Prelude.{List, [], ◌∷◌, Option, none, some}
use gax_go.Prelude.Text.{Text}
use gax_go.Prelude.Int.{pos}
use gax_go.Backoff.{Duration}

pub record CallSettings (World Retryer GrpcOption Metrics : Type 0) : Type 0 where
  -- func() Retryer: `none` is nil, as a function and as its result.
  pub retry : Option (World → Option Retryer × World)
  pub grpc : List GrpcOption
  pub path : Text
  pub timeout : Duration
  pub client_metrics : Option Metrics

-- The implementations of `CallOption` in the package.
pub data CallOption (World Retryer GrpcOption Metrics : Type 0) : Type 0 where
  retryer_option :
      Option (World → Option Retryer × World) → CallOption World Retryer GrpcOption Metrics
  grpc_opt : List GrpcOption → CallOption World Retryer GrpcOption Metrics
  path_opt : Text → CallOption World Retryer GrpcOption Metrics
  timeout_opt : Duration → CallOption World Retryer GrpcOption Metrics
  client_metrics_opt : Option Metrics → CallOption World Retryer GrpcOption Metrics

module _ {W R G M : Type 0} where
  unfoldable pub resolve : CallOption W R G M → CallSettings W R G M → CallSettings W R G M
  resolve (CallOption.retryer_option o) s = record s { retry = o }
  resolve (CallOption.grpc_opt o) s = record s { grpc = o }
  resolve (CallOption.path_opt p) s = record s { path = p }
  resolve (CallOption.timeout_opt t) s = record s { timeout = t }
  resolve (CallOption.client_metrics_opt m) s = record s { client_metrics = m }

  -- var settings CallSettings
  abbrev pub zero_settings : CallSettings W R G M
  zero_settings = record {
    retry = none;
    grpc = [];
    path = [];
    timeout = pos 0;
    client_metrics = none;
  }

  -- The loop over the options in `Invoke`.
  unfoldable pub resolve_all :
      List (CallOption W R G M) → CallSettings W R G M → CallSettings W R G M
  unfolding resolve
  resolve_all [] s = s
  resolve_all (o ∷ opts) s = resolve_all opts (resolve o s)
