-- ===== src/Tests/Calls.antt =====
-- `invoke` against the scripted stub.
use native.Mathlib.Omega.{arith}
use gax_go.Prelude.{Option, zero, ℕ, ◌≡◌, ◌↔◌, ◌⊎◌, refl, List, [], ◌∷◌, none, some, true, false}
use gax_go.Prelude.Int.{pos, negsuc}
use gax_go.Prelude.Text.{codes, strip_prefix, contains, text_eq}
use gax_go.Backoff.{pause, set_defaults, grow, draw}
use gax_go.Apierror.Types.{Status, ApiError, HttpError}
use gax_go.Apierror.Codes.{to_code}
use gax_go.Apierror.Parse.{from_error, http_code}
use gax_go.Retryer.{Retryer, on_codes, retry}
use gax_go.Retryer.Laws.{Answers, IsIn}
use gax_go.Invoke.{
  start, done, again, returned, attempt, loop, call_context, wrap_error, on_error, ask, get_retryer,
  invoke_with_options, invoke, with_timeout, derives, release, finish,
}
use gax_go.Invoke.Laws.Attempt.{Round}
use gax_go.Invoke.Retried.{retry-wrap_error, wrap_error-wrap_error}
use gax_go.V1.{v1_with_retry, v1_with_grpc_options, v1_on_codes, v1_x_goog_header, v1_invoke}
use gax_go.CallOption.{CallOption, resolve_all}
use gax_go.Feature.{is_feature_enabled, reset}
use gax_go.Header.{x_goog_header}
use gax_go.Prelude.Dict.{get}
use gax_go.Invoke.Laws.Described.{Gets, Wraps, attempt_lem}
use gax_go.Tests.Setup.{
  TestErr, policy, api-IsUnwrapMethod, World, runtime, runtime-IsRandom, backoff, backoff-IsValid,
  http, api, api-IsStatusMethod, env, settings, background, before, after,
}

run : loop api env 3 background settings false (start api env before) ≡ some (returned none after)
unfolding loop attempt on_error ask get_retryer wrap_error from_error retry on_codes pause
    set_defaults grow draw contains strip_prefix call_context text_eq
run = refl

abbrev v1_opts : List (CallOption World (Retryer api runtime) ℕ ℕ)
v1_opts =
    v1_with_retry (some (λ w. (some (v1_on_codes api runtime (14 ∷ []) backoff), w)))
    ∷ v1_with_grpc_options (3 ∷ [])
    ∷ []

-- No variable of the environment is set.
v1_run : (v1_invoke api env 3 [] reset background v1_opts before).0 ≡ some (returned none after)
unfolding invoke_with_options invoke resolve_all with_timeout derives release finish
    is_feature_enabled reset get loop attempt on_error ask get_retryer wrap_error from_error retry
    on_codes pause set_defaults grow draw contains strip_prefix call_context text_eq
v1_run = refl

v1_header : v1_x_goog_header (codes "gl-go" ∷ codes "1.22" ∷ []) ≡ some (codes "gl-go/1.22")
unfolding x_goog_header
v1_header = refl

attempt_lem_example :
    ((attempt api env background settings false (start api env before) ≡ done none after)
      ↔ Round api env background settings false (start api env before) (done none after))
    × ((factory : World → Option (Retryer api runtime) × World) (w : World)
        → Gets api env none factory w (get_retryer api env none factory w))
    × ((err : TestErr) → Wraps api env err (wrap_error api env err))
attempt_lem_example =
    attempt_lem api env background settings false (start api env before) (done none after)

abbrev service_unavailable : HttpError
service_unavailable = record { code = pos 503; message = codes "busy"; body = [] }

retry-wrap_error_example :
    Answers api runtime
      (retry api runtime
        (on_codes api runtime (14 ∷ []) backoff)
        (wrap_error api env (http service_unavailable))
        7)
      (((st : Status ℕ) × (api.from_status (http service_unavailable) ≡ some st)
          × IsIn st.code (14 ∷ []))
        ⊎ ((h : HttpError) × (api.from_status (http service_unavailable) ≡ none)
            × (api.as_http (http service_unavailable) ≡ some h)
            × IsIn (to_code h.code) (14 ∷ [])))
      (on_codes api runtime (14 ∷ []))
      backoff
      7
retry-wrap_error_example =
    retry-wrap_error api env api-IsStatusMethod api-IsUnwrapMethod runtime-IsRandom 60_000_000_000
      (omega arith) policy backoff (http service_unavailable) 7 backoff-IsValid

wrap_error-wrap_error_example :
    let once = wrap_error api env (http service_unavailable) in
    (api.from_status (wrap_error api env once) ≡ api.from_status once)
    × (api.as_http (wrap_error api env once) ≡ some service_unavailable)
    × ((from_error api (some once) ≡ none)
        ⊎ ((a : ApiError TestErr ℕ) × (from_error api (some once) ≡ some a)
            × (http_code a ≡ negsuc zero)))
wrap_error-wrap_error_example =
    wrap_error-wrap_error api env api-IsStatusMethod api-IsUnwrapMethod (http service_unavailable)

one_retry :
    attempt api env background settings true (start api env before)
    ≡ again (record {
      retry_count = 1;
      retryer = some (on_codes api runtime (14 ∷ []) (record backoff { cur = pos 300 }));
      world = record after { script = none ∷ [] };
    })
unfolding attempt on_error ask get_retryer wrap_error from_error retry on_codes pause set_defaults
    grow draw contains strip_prefix call_context text_eq
one_retry = refl
