-- ===== src/Access/Limiter.antt =====
-- The token bucket of internal/httpapi/limiter.go. Times and durations are counted in nanoseconds,
-- and time.Now does not run backwards. The tokens are float64; its operations and Duration.Seconds
-- are a parameter of the limiter, so that nothing here says how they round.

use stattii.Access.Keyed.{has_key}
use stattii.Base.{
  Bool, List, Option, String, [], eqb, false, find_first, if◌then◌else◌, leb, length, ltb, none,
  reject, some, true, update_first, ℕ, ◌++◌, ◌+◌, ◌-◌, ◌∷◌,
}

-- What the limiter does with a float64: the constants 0 and 1, `+`, `-`, `*`, `/` and `<`, and the
-- conversions float64(int) and Duration.Seconds.
pub record Float64 (F : Type 0) : Type 0 where
  pub nought : F
  pub one : F
  pub add : F → F → F
  pub sub : F → F → F
  pub mul : F → F → F
  pub div : F → F → F
  pub lt : F → F → Bool
  pub of_int : ℕ → F
  pub seconds : ℕ → F

pub record Bucket (F : Type 0) : Type 0 where
  pub tokens : F
  pub last : ℕ

-- `seen` is the map, an entry for each key.
pub record Limiter (F : Type 0) : Type 0 where
  pub burst : F
  pub window : ℕ
  pub seen : List (String × Bucket F)
  pub last_sweep : ℕ
  pub overflow : Bucket F

abbrev pub max_tracked_keys : ℕ
max_tracked_keys = 32768

abbrev pub is_idle : {F : Type 0} → ℕ → ℕ → String × Bucket F → Bool
is_idle window now (k, b) = ltb (b.last + window) now

-- The sweep, at most once in a window.
unfoldable pub sweep : {F : Type 0} → ℕ → Limiter F → Limiter F
sweep now l =
    if ltb (l.last_sweep + l.window) now
    then record l { seen = reject (is_idle l.window now) l.seen; last_sweep = now }
    else l

abbrev pub put_bucket : {F : Type 0} → String → Bucket F → Limiter F → Limiter F
put_bucket key b l = record l { seen = update_first (has_key key) (λ e. (key, b)) l.seen }

abbrev pub add_bucket : {F : Type 0} → String → Bucket F → Limiter F → Limiter F
add_bucket key b l = record l { seen = l.seen ++ (key, b) ∷ [] }

-- A bucket that was never used, with the burst in it.
abbrev pub full_bucket : {F : Type 0} → F → Bucket F
full_bucket burst = record { tokens = burst; last = 0 }

module _ {F : Type 0} ⦃d : Float64 F⦄ where
  -- newLimiter
  unfoldable pub new_limiter : ℕ → ℕ → Limiter F
  new_limiter burst window = record {
    burst = d.of_int burst;
    window = window;
    seen = [];
    last_sweep = 0;
    overflow = full_bucket (d.of_int burst);
  }

  -- `if b.tokens > l.burst { b.tokens = l.burst }`
  abbrev pub at_most : F → F → F
  at_most limit n = if d.lt limit n then limit else n

  -- `now.Sub(b.last).Seconds() / l.window.Seconds() * l.burst`
  abbrev pub gained : F → ℕ → ℕ → F
  gained burst window gap = d.mul (d.div (d.seconds gap) (d.seconds window)) burst

  -- The refill of `take`: none for a bucket that was never used.
  unfoldable pub refill : F → ℕ → ℕ → Bucket F → F
  refill burst window now b =
      if eqb b.last 0
      then b.tokens
      else at_most burst (d.add b.tokens (gained burst window (now - b.last)))

  -- `take` spends one token, if there is one.
  unfoldable pub spend_token : ℕ → F → Bool × Bucket F
  spend_token now tokens =
      if d.lt tokens d.one
      then (false, record { tokens = tokens; last = now })
      else (true, record { tokens = d.sub tokens d.one; last = now })

  -- take
  unfoldable pub take_token : F → ℕ → ℕ → Bucket F → Bool × Bucket F
  unfolding refill spend_token
  take_token burst window now b = spend_token now (refill burst window now b)

  -- A key that is not tracked: a bucket of its own, or the shared one where the map is full.
  unfoldable pub allow_new : String → ℕ → Limiter F → Bool × Limiter F
  unfolding take_token
  allow_new key now l =
      if leb max_tracked_keys (length l.seen)
      then (let (granted, b) = take_token l.burst l.window now l.overflow in
          (granted, record l { overflow = b }))
      else (let (granted, b) = take_token l.burst l.window now (full_bucket l.burst) in
          (granted, add_bucket key b l))

  unfoldable pub allow_found :
      Option (String × Bucket F) → String → ℕ → Limiter F → Bool × Limiter F
  unfolding allow_new
  allow_found none key now l = allow_new key now l
  allow_found (some (k, b)) key now l =
      let (granted, b') = take_token l.burst l.window now b in (granted, put_bucket key b' l)

  unfoldable pub allow_swept : String → ℕ → Limiter F → Bool × Limiter F
  unfolding allow_found
  allow_swept key now l = allow_found (find_first (has_key key) l.seen) key now l

  -- allow
  unfoldable pub allow : String → ℕ → Limiter F → Bool × Limiter F
  unfolding sweep allow_swept
  allow key now l = allow_swept key now (sweep now l)
