-- ===== src/Server/Limiter/Rate.antt =====
-- What a key can spend: a full bucket, and what came back since.
use noblechat.Prelude.{
  ℕ, ◌+◌, ◌-◌, ◌*◌, ◌≤◌, if◌then◌else◌, List, [], ◌∷◌, none, some, JsString, text_eq, get,
  get-put_self, ◌∙◌, ◌≡◌, arith, refl, ap,
}
use noblechat.Server.Limiter.{Options, Bucket, Buckets, bucket_of, refilled, pay, limit}
use native.Mathlib.Nat.{add-mul}

-- The cost that a list of calls for one key has paid, each call with its cost and its time.
unfoldable pub paid : Options → JsString → List (ℕ × ℕ) → Buckets → ℕ
paid o key [] buckets = 0
paid o key ((cost, now) ∷ calls) buckets =
    let later = paid o key calls (limit o key cost now buckets).1 in
    if (limit o key cost now buckets).0 then cost + later else later

-- The times of the calls do not go back, and `from` is not after them.
unfoldable pub Ordered : ℕ → List (ℕ × ℕ) → Type 0
Ordered from [] = Unit
Ordered from ((cost, now) ∷ calls) = (from ≤ now) × Ordered now calls

unfoldable pub last_time : ℕ → List (ℕ × ℕ) → ℕ
last_time from [] = from
last_time from ((cost, now) ∷ calls) = last_time now calls

split_time : (last now r : ℕ) → last ≤ now → last * r + (now - last) * r ≡ now * r
split_time last now r h =
    let parts : last + (now - last) ≡ now = omega arith in
    rw (← add-mul last (now - last) r, parts) (λ i. now * r)

module _ (o : Options) where
  pay_last : (cost now : ℕ) (b : Bucket) → (pay o cost now b).1.last ≡ now
  unfolding pay
  pay_last cost now b = ground arith

  pay_bound :
      (cost now : ℕ) (b : Bucket)
      → b.last ≤ now
      → (if (pay o cost now b).0 then cost * o.unit else 0)
          + (pay o cost now b).1.tokens
          + b.last * o.refill_per_ms
        ≤ b.tokens + now * o.refill_per_ms
  unfolding pay refilled
  pay_bound cost now b h = ground (arith, split_time b.last now o.refill_per_ms h)

  bucket_known :
      (key : JsString) (now : ℕ) (b : Bucket) (buckets : Buckets)
      → get key buckets ≡ some b
      → bucket_of o key now buckets ≡ b
  unfolding bucket_of
  bucket_known key now b buckets h = rw (bucket_of, h) refl

  bucket_absent :
      (key : JsString) (now : ℕ) (buckets : Buckets)
      → get key buckets ≡ none
      → bucket_of o key now buckets ≡ record { tokens = o.capacity * o.unit; last = now }
  unfolding bucket_of
  bucket_absent key now buckets h = rw (bucket_of, h) refl

  limit_pays :
      (key : JsString) (cost now : ℕ) (b : Bucket) (buckets : Buckets)
      → bucket_of o key now buckets ≡ b
      → ((limit o key cost now buckets).0 ≡ (pay o cost now b).0)
        × (get key (limit o key cost now buckets).1 ≡ some (pay o cost now b).1)
  unfolding limit
  limit_pays key cost now b buckets known = (
    ap (λ (x : Bucket). (pay o cost now x).0) known,
    get-put_self key (pay o cost now (bucket_of o key now buckets)).1 buckets
        ∙ ap (λ (x : Bucket). some (pay o cost now x).1) known,
  )

  -- From the bucket that the first call finds
  paid_from :
      (key : JsString) (calls : List (ℕ × ℕ)) (cost now : ℕ) (b : Bucket) (buckets : Buckets)
      → bucket_of o key now buckets ≡ b
      → b.last ≤ now
      → Ordered now calls
      → paid o key ((cost, now) ∷ calls) buckets * o.unit + b.last * o.refill_per_ms
        ≤ b.tokens + last_time now calls * o.refill_per_ms
  unfolding paid Ordered last_time
  paid_from key [] cost now b buckets known first ordered =
      let (took, stored) = limit_pays key cost now b buckets known in
      ground (arith, pay_bound cost now b first, took)
  paid_from key ((cost', now') ∷ calls) cost now b buckets known first (next, ordered) =
      let after = (pay o cost now b).1 in
      let buckets' = (limit o key cost now buckets).1 in
      let (took, stored) = limit_pays key cost now b buckets known in
      let same = pay_last cost now b in
      let later =
        paid_from key calls cost' now' after buckets' (bucket_known key now' after buckets' stored)
          (omega (arith, same)) ordered in
      let clock : after.last * o.refill_per_ms ≡ now * o.refill_per_ms =
        ap (λ (t : ℕ). t * o.refill_per_ms) same in
      let bound = pay_bound cost now b first in
      let sum = add-mul cost (paid o key ((cost', now') ∷ calls) buckets') o.unit in
      ground (arith, later, clock, bound, sum, took)

  last_time_le :
      (from : ℕ) (calls : List (ℕ × ℕ)) → Ordered from calls → from ≤ last_time from calls
  unfolding Ordered last_time
  last_time_le from [] h = omega arith
  last_time_le from ((cost, now) ∷ calls) (first, h) =
      omega (arith, first, last_time_le now calls h)

  -- Over any calls for a key that has no bucket yet, in the order of time and from the first call on,
  -- the costs paid are at most a full bucket and what came back up to the last call.
  pub paid-bounded :
      (key : JsString) (cost now : ℕ) (calls : List (ℕ × ℕ)) (buckets : Buckets)
      → get key buckets ≡ none
      → Ordered now calls
      → paid o key ((cost, now) ∷ calls) buckets * o.unit
        ≤ o.capacity * o.unit + (last_time now calls - now) * o.refill_per_ms
  paid-bounded key cost now calls buckets absent ordered =
      let full : Bucket = record { tokens = o.capacity * o.unit; last = now } in
      let fresh = bucket_absent key now buckets absent in
      let spent = paid_from key calls cost now full buckets fresh (omega arith) ordered in
      let time =
        split_time now (last_time now calls) o.refill_per_ms (last_time_le now calls ordered) in
      omega (arith, spent, time)
