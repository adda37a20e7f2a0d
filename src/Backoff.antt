-- ===== src/Backoff.antt =====
-- `Backoff` of v2/call_option.go. A duration is a number of nanoseconds, signed as in Go.
-- Floating point and `math/rand` are parameters.
pub mod Bounds
pub mod Growth
pub mod Panics
use gax_go.Prelude.{ℕ, ◌+◌, ◌*◌, ◌<◌, Option, none, some, Bool, if◌then◌else◌, ◌>>=◌, List, [], ◌∷◌}
use gax_go.Prelude.Int.{ℤ, pos, negsuc, ltb_ℤ, eq_ℤ}

abbrev pub Duration : Type 0
Duration = ℤ

-- The float64 operations that `Pause` uses, and the source of random numbers.
pub record Runtime : Type 1 where
  pub Float : Type 0
  -- m < 1
  pub lt_one : Float → Bool
  pub two : Float
  -- time.Duration(float64(d) * m)
  pub scale : Duration → Float → Duration
  pub Seed : Type 0
  -- rand.Int63n(n) for a positive n
  pub int63n : ℕ → Seed → ℕ × Seed

-- rand.Int63n returns a number in [0, n).
pub record IsRandom (rt : Runtime) : Type 0 where
  pub int63n-lt : (n : ℕ) (s : Runtime.Seed rt) → 0 < n → (rt.int63n n s).0 < n

abbrev pub second : Duration
second = pos 1_000_000_000

abbrev pub thirty_seconds : Duration
thirty_seconds = pos 30_000_000_000

pub record Backoff (rt : Runtime) : Type 0 where
  pub initial : Duration
  pub max : Duration
  pub multiplier : Runtime.Float rt
  pub cur : Duration

module _ (rt : Runtime) where
  -- What `Pause` returns, with the receiver and the random source that it leaves.
  pub record Paused : Type 0 where
    pub delay : Duration
    pub backoff : Backoff rt
    pub seed : rt.Seed

  -- The four tests for a zero value.
  unfoldable pub set_defaults : Backoff rt → Backoff rt
  set_defaults b =
      let b1 = if eq_ℤ b.initial (pos 0) then record b { initial = second } else b in
      let b2 = if eq_ℤ b1.cur (pos 0) then record b1 { cur = b1.initial } else b1 in
      let b3 = if eq_ℤ b2.max (pos 0) then record b2 { max = thirty_seconds } else b2 in
      if rt.lt_one b3.multiplier then record b3 { multiplier = rt.two } else b3

  unfoldable pub grow : Backoff rt → Backoff rt
  grow b =
      let scaled = rt.scale b.cur b.multiplier in
      record b { cur = if ltb_ℤ b.max scaled then b.max else scaled }

  -- rand.Int63n panics unless its argument is positive: `none`.
  unfoldable pub draw : Duration → rt.Seed → Option (ℕ × rt.Seed)
  draw (pos ℕ.zero) s = none
  draw (pos (ℕ.suc n)) s = some (rt.int63n (ℕ.suc n) s)
  draw (negsuc n) s = none

  unfoldable pub pause : Backoff rt → rt.Seed → Option Paused
  pause b0 s = do
    let b = set_defaults b0
    (n, s') ← draw b.cur s
    some (record { delay = pos (1 + n); backoff = grow b; seed = s' })

  -- The receiver after a call that does not panic.
  unfoldable pub next : Backoff rt → Backoff rt
  next b = grow (set_defaults b)

  -- The delays of `n` calls of `Pause` on one receiver.
  unfoldable pub pauses : ℕ → Backoff rt → rt.Seed → Option (List Duration)
  pauses ℕ.zero b s = some []
  pauses (ℕ.suc n) b s = do p ← pause b s; rest ← pauses n p.backoff p.seed; some (p.delay ∷ rest)
