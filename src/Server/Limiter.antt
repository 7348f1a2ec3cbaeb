-- ===== src/Server/Limiter.antt =====
-- apps/server/util.js, rateLimiter: a bucket of tokens for each key.
pub mod Rate
use noblechat.Prelude.{
  ℕ, ◌+◌, ◌-◌, ◌*◌, ◌≤◌, min, ltb, if◌then◌else◌, List, [], ◌∷◌, Option, none, some, Bool, true,
  false, JsString, text_eq, ◌===◌, get, put, keep, not, ◌≡◌, arith,
}

-- The options, in exact fractions of a token: `unit` of them make a token, and `refill_per_ms` of them
-- come back every millisecond. The source's `refillPerSec` tokens per second are `refill_per_ms * 1000`
-- of `unit`; its floating-point numbers are exact up to rounding.
pub record Options : Type 0 where
  pub capacity : ℕ
  pub unit : ℕ
  pub refill_per_ms : ℕ

pub record Bucket : Type 0 where
  pub tokens : ℕ
  pub last : ℕ

abbrev pub Buckets : Type 0
Buckets = List (JsString × Bucket)

-- The idle sweep, on a timer
unfoldable pub sweep : ℕ → Buckets → Buckets
sweep now buckets = keep (λ entry. not (ltb 600000 (now - entry.1.last))) buckets

module _ (o : Options) where
  -- The bucket of a key, full if there is none yet
  unfoldable pub bucket_of : JsString → ℕ → Buckets → Bucket
  bucket_of key now buckets = elim (get key buckets) [
    | none ↦ record { tokens = o.capacity * o.unit; last = now }
    | some b ↦ b
  ]

  -- The refill since the last call; the clock is one that does not go back.
  unfoldable pub refilled : ℕ → Bucket → ℕ
  refilled now b = min (o.capacity * o.unit) (b.tokens + (now - b.last) * o.refill_per_ms)

  -- One bucket pays the cost, if it has the tokens.
  unfoldable pub pay : ℕ → ℕ → Bucket → Bool × Bucket
  pay cost now b =
      let tokens = refilled now b in
      let left = tokens - cost * o.unit in
      if ltb tokens (cost * o.unit)
      then (false, record { tokens = tokens; last = now })
      else (true, record { tokens = left; last = now })

  -- The returned function: true if the cost was paid.
  unfoldable pub limit : JsString → ℕ → ℕ → Buckets → Bool × Buckets
  limit key cost now buckets =
      let r = pay cost now (bucket_of key now buckets) in (r.0, put key r.1 buckets)
