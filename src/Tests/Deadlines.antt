-- ===== src/Tests/Deadlines.antt =====
-- A call of `invoke` that never succeeds, and the deadline that ends it.
use native.Mathlib.Omega.{arith}
use gax_go.Prelude.{
  ◌-◌, ◌<◌, ◌==◌, ℕ, ◌+◌, ◌≤◌, ◌≡◌, refl, [], ◌∷◌, Option, none, some, false, if◌then◌else◌, ltb,
}
use gax_go.Prelude.Int.{ℤ, pos, negsuc, pos_part}
use gax_go.Prelude.Text.{codes}
use gax_go.Code
use gax_go.Feature.{reset}
use gax_go.Backoff.{Duration}
use gax_go.Retryer.{on_codes}
use gax_go.Invoke.{Settings, returned, invoke}
use gax_go.Invoke.System.{System, Channel, standard}
use gax_go.Invoke.Deadline.Standard.{KeepsTime, invoke-deadline}
use gax_go.Tests.Setup.{
  policy, runtime, runtime-IsRandom, backoff, backoff-IsValid, TestErr, plain, api, background,
  unavailable,
}

-- The time in nanoseconds, the random source, and how often `select` still takes the timer where the
-- context is done too.
record World : Type 0 where
  luck : ℕ
  now : ℕ
  seed : ℕ

abbrev wait_until : Option ℤ → Duration → World → Channel × World
wait_until none d w = (Channel.timer_fired, record w { now = w.now + pos_part d })
wait_until (some (pos t)) d w =
    if ltb t (w.now + pos_part d)
    then (if w.luck == 0
        then (Channel.context_done, w)
        else (Channel.timer_fired, record w { now = w.now + pos_part d; luck = w.luck - 1 }))
    else (Channel.timer_fired, record w { now = w.now + pos_part d })
wait_until (some (negsuc n)) d w = (Channel.context_done, w)

-- The stub takes 2ns and always fails.
abbrev sys : System api runtime
sys = record {
  World = World;
  GrpcOption = ℕ;
  Histogram = ℕ;
  call = λ ctx settings w. (some unavailable, record w { now = w.now + 2 });
  wait = λ ctx d w. wait_until ctx.deadline d w;
  after = λ d w. pos (w.now + pos_part d);
  cancel = λ ctx w. w;
  new_transport_data = λ w. (0, w);
  seed = λ w. w.seed;
  set_seed = λ s w. record w { seed = s };
  since = λ began w. pos 3;
  ctx_err = λ ctx w. some (plain (codes "context deadline exceeded"));
  transports = λ w. [];
  inspect = record {
    is_deadline_exceeded = λ e. false;
    is_canceled = λ e. false;
    context_code = λ e. Code.unknown;
    type_name = λ e. codes "error";
  };
  emit = λ m w. w;
}

wait_until-timer_fired :
    (deadline : Option ℤ) (n : ℕ) (w : World)
    → (wait_until deadline (pos n) w).0 ≡ Channel.timer_fired
    → w.now + n ≤ (wait_until deadline (pos n) w).1.now
wait_until-timer_fired none n w e = omega arith
wait_until-timer_fired (some (pos t)) n w e = ground arith
wait_until-timer_fired (some (negsuc m)) n w e = cc

luck-wait_until :
    (deadline : Option ℤ) (d : Duration) (w : World) → (wait_until deadline d w).1.luck ≤ w.luck
luck-wait_until none d w = omega arith
luck-wait_until (some (pos t)) d w = ground arith
luck-wait_until (some (negsuc m)) d w = omega arith

wait_until-deadline :
    (deadline : Option ℤ) (n t : ℕ) (w : World)
    → 1 ≤ n
    → deadline ≡ some (pos t)
    → t ≤ w.now
    → (wait_until deadline (pos n) w).0 ≡ Channel.timer_fired
    → (wait_until deadline (pos n) w).1.luck < w.luck
wait_until-deadline none n t w h e late took = cc
wait_until-deadline (some (pos s)) n t w h e late took = ground arith
wait_until-deadline (some (negsuc m)) n t w h e late took = cc

sys-KeepsTime : KeepsTime sys (λ w. w.now) (λ w. w.luck)
sys-KeepsTime = record {
  clock-call = λ ctx settings w. (omega arith, omega arith);
  clock-set_seed = λ s w. (omega arith, omega arith);
  clock-new_transport_data = λ w. (omega arith, omega arith);
  wait-timer_fired = λ ctx n w e. wait_until-timer_fired ctx.deadline n w e;
  luck-wait = λ ctx d w. luck-wait_until ctx.deadline d w;
  wait-deadline = λ ctx n t w h e late took. wait_until-deadline ctx.deadline n t w h e late took;
  ctx_err-context_done = λ ctx d w e none_. cc;
}

-- A timeout of 900ns.
abbrev settings : Settings api (standard sys)
settings = record {
  retry = some (λ w. (some (on_codes api runtime (14 ∷ []) backoff), w));
  grpc = [];
  path = [];
  timeout = pos 900;
  client_metrics = none;
}

abbrev begun : World
begun = record { now = 100; seed = 7; luck = 2 }

invoke-deadline_example :
    (e : Option TestErr) × (w : World) × ((invoke api
        (standard sys)
        903
        []
        reset
        background
        settings
        begun).0
      ≡ some (returned e w))
invoke-deadline_example =
    invoke-deadline sys (λ w. w.now) (λ w. w.luck) sys-KeepsTime runtime-IsRandom 60_000_000_000
      (omega arith) policy [] reset background settings backoff refl backoff-IsValid begun 1000 903
      refl (omega arith)
