-- ===== src/Tests/Setup.antt =====
-- Concrete instances of the parameters of the model: whole-number multipliers, products of 64 bits, a counter as random
-- source, a small type of errors, and a scripted stub.
use native.Mathlib.Nat.{mod-lt}
use gax_go.Prelude.{
  ℕ, ◌+◌, ◌*◌, ◌%◌, refl, List, [], ◌∷◌, Option, none, some, arith, ◌==◌, ◌>>=◌, ◌^◌, ◌-◌, ltb,
  if◌then◌else◌,
}
use gax_go.Prelude.Text.{Text, codes}
use gax_go.Prelude.Int.{ℤ, pos, negsuc, pos_part, ◌≤ℤ◌}
use gax_go.Backoff.{Runtime, IsRandom, Backoff}
use gax_go.Backoff.Bounds.{IsValid}
use gax_go.Backoff.Growth.{IsFactor}
use gax_go.Apierror.Details.{Detail, ErrorInfo}
use gax_go.Apierror.Parse.{unwrap}
use gax_go.Apierror.Types.{Status, HttpError, ErrorApi}
use gax_go.CallOption.{CallSettings}
use gax_go.Context.{Context}
use gax_go.Retryer.{Retryer, Verdict, retry, on_codes}
use gax_go.Retryer.Policy.{Policy, on_grpc}
use gax_go.Invoke.{Env}
use gax_go.Invoke.Results.{IsStatusMethod}
use gax_go.Invoke.Retried.{IsUnwrapMethod}

-- An int64 as on amd64: a product that does not fit is the least number.
abbrev pub wrapped_product : ℤ → ℕ → ℤ
wrapped_product d m =
    if ltb (pos_part d * m) (2 ^ 63) then pos (pos_part d * m) else negsuc (2 ^ 63 - 1)

abbrev pub runtime : Runtime
runtime = record {
  Float = ℕ;
  lt_one = λ m. m == 0;
  two = 2;
  scale = wrapped_product;
  Seed = ℕ;
  int63n = λ n s. (s % n, s + 1);
}

pub runtime-IsRandom : IsRandom runtime
runtime-IsRandom = record { int63n-lt = λ n s h. mod-lt s h }

pub runtime-IsFactor : IsFactor runtime 3 3 1000
runtime-IsFactor = record { exact = λ d h. ground arith; not_small = refl }

-- Initial 100ns, Max 1000ns, Multiplier 3.
abbrev pub backoff : Backoff runtime
backoff = record { initial = pos 100; max = pos 1000; multiplier = 3; cur = pos 0 }

tripled : (d : ℤ) → pos 1 ≤ℤ d → d ≤ℤ pos 60_000_000_000 → pos 1 ≤ℤ wrapped_product d 3
tripled (pos n) lo hi = ground arith
tripled (negsuc n) lo hi = absurd (omega arith)

pub backoff-IsValid : IsValid 60_000_000_000 backoff
backoff-IsValid = record { in_range = omega arith; scale-pos = tripled }

pub data TestErr : Type 0 where
  plain : Text → TestErr
  rpc : Status ℕ → TestErr
  http : HttpError → TestErr
  wrapped : Option (Status ℕ) → Option HttpError → TestErr

abbrev status_of : TestErr → Option (Status ℕ)
status_of (rpc st) = some st
status_of (wrapped st h) = st
status_of _ = none

abbrev http_of : TestErr → Option HttpError
http_of (http h) = some h
http_of (wrapped st h) = h
http_of _ = none

abbrev text_of : TestErr → Text
text_of (plain s) = s
text_of (rpc st) = st.message
text_of (http h) = h.message
text_of (wrapped st h) = []

abbrev pub quota_info : ErrorInfo
quota_info = record { reason = codes "QUOTA"; domain = codes "example.com"; metadata = [] }

-- Every body but the empty one has the same detail.
abbrev details_of : Text → Option (List (Option (Detail ℕ)))
details_of [] = none
details_of (c ∷ s) = some (some (Detail.error_info quota_info) ∷ [])

abbrev pub api : ErrorApi
api = record {
  Err = TestErr;
  Other = ℕ;
  Any = Option (Detail ℕ);
  error_text = text_of;
  from_status = status_of;
  as_http = http_of;
  unmarshal_error = details_of;
  unmarshal_new = λ any. any;
  api_err = λ a. wrapped a.status (a.err >>= http_of);
  map_text = λ m. [];
  duration_text = λ d. [];
  other_text = λ o. [];
}

pub api-IsStatusMethod : IsStatusMethod api
api-IsStatusMethod = record { from_api_err = λ a. refl }

pub api-IsUnwrapMethod : IsUnwrapMethod api
unfolding unwrap
api-IsUnwrapMethod = record { as-api_err = λ a. refl }

-- The answers of the stub still to come, the random source, and the pauses so far.
pub record World : Type 0 where
  pub script : List (Option TestErr)
  pub seed : ℕ
  pub slept : List ℤ

abbrev answer : List (Option TestErr) → World → Option TestErr × World
answer [] w = (none, w)
answer (e ∷ script) w = (e, record w { script = script })

abbrev reseed :
    World
    → Option (Verdict × Retryer api runtime × ℕ)
    → Option (Verdict × Retryer api runtime × World)
reseed w none = none
reseed w (some (v, r, s)) = some (v, r, record w { seed = s })

abbrev pub env : Env api
env = record {
  World = World;
  Retryer = Retryer api runtime;
  GrpcOption = ℕ;
  Metrics = ℕ;
  call = λ ctx settings w. answer w.script w;
  retry = λ r err w. reseed w (retry api runtime r err w.seed);
  sleep = λ ctx d w. (none, record w { slept = d ∷ w.slept });
  after = λ d w. pos 0;
  cancel = λ ctx w. w;
  new_transport_data = λ w. (0, w);
  record_metric = λ ctx settings began e w. w;
}

abbrev pub settings : CallSettings World (Retryer api runtime) ℕ ℕ
settings = record {
  retry = some (λ w. (some (on_codes api runtime (14 ∷ []) backoff), w));
  grpc = [];
  path = [];
  timeout = pos 0;
  client_metrics = none;
}

abbrev pub policy : Policy api
policy = on_grpc (14 ∷ [])

abbrev pub background : Context
background = record { deadline = none; values = [] }

abbrev pub unavailable : TestErr
unavailable = rpc (record { code = 14; message = codes "try again"; details = [] })

-- The stub fails once with a code that is retried, and then succeeds.
abbrev pub before : World
before = record { script = some unavailable ∷ none ∷ []; seed = 7; slept = [] }

abbrev pub after : World
after = record { script = []; seed = 8; slept = pos 8 ∷ [] }
