-- ===== src/Server/Lockout.antt =====
-- apps/server/util.js, makeLockout: the login throttle of one account, with exponential backoff.
pub mod Lock
pub mod Capacity
use noblechat.Prelude.{
  ℕ, zero, suc, ◌+◌, ◌-◌, ◌*◌, ◌/◌, ◌%◌, ◌^◌, min, max, ◌==◌, ltb, leb, if◌then◌else◌, List, [],
  ◌∷◌, ◌++◌, Option, none, some, Bool, ◌||◌, length, drop, keep, JsString, text_eq, get, delete,
}

-- `makeLockout`'s options
pub record Options : Type 0 where
  pub threshold : ℕ
  pub base_delay_ms : ℕ
  pub max_delay_ms : ℕ
  pub forget_after_ms : ℕ
  pub max_entries : ℕ

-- A value of the map `hits`.
pub record Entry : Type 0 where
  pub fails : ℕ
  pub until : ℕ
  pub forget_at : ℕ

abbrev pub Hits : Type 0
Hits = List (JsString × Entry)

-- `Math.ceil(ms / 1000)`
abbrev pub ceil_seconds : ℕ → ℕ
ceil_seconds ms = (ms + 999) / 1000

-- The test by which `prune` keeps an entry.
abbrev pub alive : ℕ → JsString × Entry → Bool
alive now (k, e) = ltb now e.forget_at

module _ (o : Options) where
  -- `delayFor(fails)`
  unfoldable pub delay_for : ℕ → ℕ
  delay_for fails =
      if ltb fails o.threshold
      then 0
      else min o.max_delay_ms (o.base_delay_ms * 2 ^ min (fails - o.threshold) 20)

  -- `prune(now)`: the expired entries go, and then the oldest ones until the rest fits.
  unfoldable pub prune : ℕ → Hits → Hits
  prune now hits = let rest = keep (alive now) hits in drop (length rest - o.max_entries) rest

  -- `retryAfter(key, now)`
  unfoldable pub retry_after : JsString → ℕ → Hits → ℕ × Hits
  retry_after key now hits = elim (get key hits) [
    | none ↦ (0, hits)
    | some e ↦
        if leb e.forget_at now
        then (0, delete key hits)
        else if leb e.until now
        then (0, hits)
        else (ceil_seconds (e.until - now), hits)
  ]

  blank : Entry
  blank = record { fails = 0; until = 0; forget_at = 0 }

  -- The entry that `fail` goes on from.
  previous : ℕ → Option Entry → Entry
  unfolding blank
  previous now none = blank
  previous now (some e) = if ltb now e.forget_at then e else blank

  failed : ℕ → Entry → Entry
  failed now e =
      let until = now + delay_for (e.fails + 1) in
      record { fails = e.fails + 1; until = until; forget_at = max (now + o.forget_after_ms) until }

  -- The entry that `fail` writes.
  unfoldable pub next_entry : JsString → ℕ → Hits → Entry
  unfolding previous failed
  next_entry key now hits = failed now (previous now (get key hits))

  -- `fail(key, now)`; the entry moves to the end of the insertion order.
  unfoldable pub fail : JsString → ℕ → Hits → ℕ × Hits
  fail key now hits =
      let e = next_entry key now hits in
      let hits' = delete key hits ++ (key, e) ∷ [] in
      (
        ceil_seconds (delay_for e.fails),
        if ltb o.max_entries (length hits') || e.fails % 32 == 0 then prune now hits' else hits',
      )

  -- `succeed(key)`
  unfoldable pub succeed : JsString → Hits → Hits
  succeed key hits = delete key hits
