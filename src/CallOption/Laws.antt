-- ===== src/CallOption/Laws.antt =====
-- The last option of each kind wins, and no option touches another's field.
use gax_go.Prelude.{List, [], ◌∷◌, ◌≡◌, Option, refl}
use gax_go.Prelude.Text.{Text}
use gax_go.Backoff.{Duration}
use gax_go.CallOption.{CallOption, CallSettings, resolve_all}

module _ {W R G M : Type 0} where
  -- The value of the last option of a kind, and the field's own value if there is none.
  abbrev pub last_retry :
      List (CallOption W R G M) → Option (W → Option R × W) → Option (W → Option R × W)
  last_retry [] v = v
  last_retry (CallOption.retryer_option o ∷ opts) v = last_retry opts o
  last_retry (_ ∷ opts) v = last_retry opts v

  abbrev pub last_grpc : List (CallOption W R G M) → List G → List G
  last_grpc [] v = v
  last_grpc (CallOption.grpc_opt o ∷ opts) v = last_grpc opts o
  last_grpc (_ ∷ opts) v = last_grpc opts v

  abbrev pub last_path : List (CallOption W R G M) → Text → Text
  last_path [] v = v
  last_path (CallOption.path_opt p ∷ opts) v = last_path opts p
  last_path (_ ∷ opts) v = last_path opts v

  abbrev pub last_timeout : List (CallOption W R G M) → Duration → Duration
  last_timeout [] v = v
  last_timeout (CallOption.timeout_opt t ∷ opts) v = last_timeout opts t
  last_timeout (_ ∷ opts) v = last_timeout opts v

  abbrev pub last_metrics : List (CallOption W R G M) → Option M → Option M
  last_metrics [] v = v
  last_metrics (CallOption.client_metrics_opt m ∷ opts) v = last_metrics opts m
  last_metrics (_ ∷ opts) v = last_metrics opts v

  -- Each field of the resolved settings is the value of the last option of its own kind, and is
  -- unchanged if there is no such option: options of other kinds and their order have no effect.
  pub resolve_all_lem :
      (opts : List (CallOption W R G M)) (s : CallSettings W R G M)
      → let t = resolve_all opts s in
        (t.retry ≡ last_retry opts s.retry)
        × (t.grpc ≡ last_grpc opts s.grpc)
        × (t.path ≡ last_path opts s.path)
        × (t.timeout ≡ last_timeout opts s.timeout)
        × (t.client_metrics ≡ last_metrics opts s.client_metrics)
  unfolding resolve_all
  resolve_all_lem [] s = (refl, refl, refl, refl, refl)
  resolve_all_lem (CallOption.retryer_option o ∷ opts) s =
      resolve_all_lem opts (record s { retry = o })
  resolve_all_lem (CallOption.grpc_opt o ∷ opts) s = resolve_all_lem opts (record s { grpc = o })
  resolve_all_lem (CallOption.path_opt p ∷ opts) s = resolve_all_lem opts (record s { path = p })
  resolve_all_lem (CallOption.timeout_opt t ∷ opts) s =
      resolve_all_lem opts (record s { timeout = t })
  resolve_all_lem (CallOption.client_metrics_opt m ∷ opts) s =
      resolve_all_lem opts (record s { client_metrics = m })
