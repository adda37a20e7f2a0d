-- ===== src/Backoff/Bounds.antt =====
-- How long `Pause` waits.
use gax_go.Prelude.{
  [], ◌∷◌, length, ap, ℕ, zero, suc, ◌+◌, ◌≤◌, ◌≡◌, refl, some, arith, if◌then◌else◌,
}
use gax_go.Prelude.{List}
use gax_go.Prelude.Int.{pos, negsuc, ◌≤ℤ◌}
use gax_go.Backoff.{next, pauses, Runtime, IsRandom, Backoff, pause, set_defaults, grow, draw}
use gax_go.Backoff.{Duration}

-- No duration of the configuration is negative or above `cap`.
pub record InRange {rt : Runtime} (cap : ℕ) (b : Backoff rt) : Type 0 where
  pub initial_lo : pos 0 ≤ℤ b.initial
  pub initial_hi : b.initial ≤ℤ pos cap
  pub max_lo : pos 0 ≤ℤ b.max
  pub max_hi : b.max ≤ℤ pos cap
  pub cur_lo : pos 0 ≤ℤ b.cur
  pub cur_hi : b.cur ≤ℤ pos cap

-- The multiplier after the defaults.
abbrev pub effective : {rt : Runtime} → Backoff rt → Runtime.Float rt
effective {rt} b = if rt.lt_one b.multiplier then rt.two else b.multiplier

-- A configuration in range whose own multiplier, or 2 where that is below 1, takes the durations from
-- 1ns to `cap` to positive ones, so that no product that the limits are made from overflows.
pub record IsValid {rt : Runtime} (cap : ℕ) (b : Backoff rt) : Type 0 where
  pub in_range : InRange cap b
  pub scale-pos : (d : Duration) → pos 1 ≤ℤ d → d ≤ℤ pos cap → pos 1 ≤ℤ rt.scale d (effective b)

-- The bound on the next delay: the current limit after the defaults.
abbrev pub limit : {rt : Runtime} → Backoff rt → Duration
limit {rt} b = (set_defaults rt b).cur

-- The receiver after `n` calls.
unfoldable pub advance : {rt : Runtime} → ℕ → Backoff rt → Backoff rt
advance zero b = b
advance {rt} (suc n) b = advance n (next rt b)

-- Each delay is at least 1ns and at most the limit of its call.
abbrev pub IsWithin : {rt : Runtime} → Backoff rt → List Duration → Type 0
IsWithin b [] = Unit
IsWithin {rt} b (d ∷ ds) = (pos 1 ≤ℤ d) × (d ≤ℤ limit b) × IsWithin (next rt b) ds

module _ {rt : Runtime} (random : IsRandom rt) (cap : ℕ) where
  -- After the defaults the three durations are positive.
  record IsReady (b : Backoff rt) : Type 0 where
    initial_lo : pos 1 ≤ℤ b.initial
    initial_hi : b.initial ≤ℤ pos cap
    max_lo : pos 1 ≤ℤ b.max
    max_hi : b.max ≤ℤ pos cap
    cur_lo : pos 1 ≤ℤ b.cur
    cur_hi : b.cur ≤ℤ pos cap

  set_defaults-multiplier : (b : Backoff rt) → (set_defaults rt b).multiplier ≡ effective b
  unfolding set_defaults
  set_defaults-multiplier b = ground arith

  set_defaults-IsReady :
      (b : Backoff rt) → 30_000_000_000 ≤ cap → InRange cap b → IsReady (set_defaults rt b)
  unfolding set_defaults
  set_defaults-IsReady b room v = ground arith

  grow-InRange :
      (b : Backoff rt)
      → IsReady b
      → (pos 1 ≤ℤ rt.scale b.cur b.multiplier)
      → InRange cap (grow rt b)
  unfolding grow
  grow-InRange b v positive = ground arith

  -- The multiplier that a call leaves stays as it is.
  effective-next : (b : Backoff rt) → effective (next rt b) ≡ effective b
  unfolding next grow set_defaults
  effective-next b = ground arith

  draw_lem :
      (d : Duration) (s : rt.Seed)
      → pos 1 ≤ℤ d
      → (n : ℕ) × (s' : rt.Seed) × (draw rt d s ≡ some (n, s')) × (pos (1 + n) ≤ℤ d)
  unfolding draw
  draw_lem (pos zero) s h = absurd (omega arith)
  draw_lem (pos (suc n)) s h = (
    (rt.int63n (suc n) s).0,
    (rt.int63n (suc n) s).1,
    refl,
    omega (arith, random.int63n-lt (suc n) s (omega arith)),
  )
  draw_lem (negsuc n) s h = absurd (omega arith)

  next-IsValid : (b : Backoff rt) → 30_000_000_000 ≤ cap → IsValid cap b → IsValid cap (next rt b)
  unfolding next
  next-IsValid b room v =
      let ready = set_defaults-IsReady b room v.in_range in
      let r = set_defaults rt b in
      record {
        in_range =
            grow-InRange r ready
              (rw (set_defaults-multiplier b) (v.scale-pos r.cur ready.cur_lo ready.cur_hi));
        scale-pos = rw (effective-next b) v.scale-pos;
      }

  -- From a configuration within range `Pause` does not panic, waits at least 1ns and at most the
  -- current limit, and leaves a configuration within range.
  pub pause_lem :
      (b : Backoff rt) (s : rt.Seed)
      → 30_000_000_000 ≤ cap
      → IsValid cap b
      → (d : Duration) × (s' : rt.Seed) × (pause rt b s
          ≡ some (record { delay = d; backoff = next rt b; seed = s' }))
        × (pos 1 ≤ℤ d)
        × (d ≤ℤ limit b)
        × IsValid cap (next rt b)
  unfolding pause next
  pause_lem b s room v =
      let r = set_defaults-IsReady b room v.in_range in
      let (n, s', e, h) = draw_lem (set_defaults rt b).cur s r.cur_lo in
      (pos (1 + n), s', rw e refl, omega arith, h, next-IsValid b room v)

  -- If the random source keeps its range, the durations of the configuration lie between 0 and a cap
  -- of at least 30s, and its multiplier, or 2 where that is below 1, takes the durations from 1ns to
  -- the cap to positive ones, then
  -- any number of calls of `Pause` do not panic, and each waits at least 1ns and at most the limit
  -- of its round.
  pub pauses_lem :
      (n : ℕ) (b : Backoff rt) (s : rt.Seed)
      → 30_000_000_000 ≤ cap
      → IsValid cap b
      → (ds : List Duration) × (pauses rt n b s ≡ some ds) × (length ds ≡ n) × IsWithin b ds
  unfolding pauses
  pauses_lem zero b s room v = ([], refl, refl, tt)
  pauses_lem (suc n) b s room v =
      let (d, s', e, lo, hi, v') = pause_lem b s room v in
      let (ds, e', count, within) = pauses_lem n (next rt b) s' room v' in
      (d ∷ ds, rw (e, e') refl, ap suc count, (lo, hi, within))
