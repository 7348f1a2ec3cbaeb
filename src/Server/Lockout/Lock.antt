-- ===== src/Server/Lockout/Lock.antt =====
-- What a failed sign-in does to its own account.
use noblechat.Prelude.{
  ℕ, zero, suc, ◌+◌, ◌-◌, ◌*◌, ◌%◌, ◌^◌, ◌≤◌, ◌<◌, min, ◌==◌, ltb, if◌then◌else◌, [], ◌∷◌, ◌++◌,
  none, some, Bool, true, ◌||◌, length, drop, keep, JsString, text_eq, ===_refl, get, delete,
  get-delete, arith, ◌≡◌, refl, Bool-cases, inl, inr, length-append,
}
use native.Mathlib.Nat.{pow-le-pow_right}
use noblechat.Server.Lockout.{
  Options, Entry, Hits, ceil_seconds, alive, delay_for, prune, retry_after, next_entry, fail,
  succeed,
}

-- An entry at the end is found while no more than what stands before it is dropped.
get-drop-last :
    (n : ℕ) (hits : Hits) (key : JsString) (e : Entry)
    → n ≤ length hits
    → get key hits ≡ none
    → get key (drop n (hits ++ (key, e) ∷ [])) ≡ some e
unfolding get
get-drop-last zero [] key e h absent = ground (arith, ===_refl key)
get-drop-last (suc n) [] key e h absent = elim h [ ]
get-drop-last zero ((j, d) ∷ hits) key e h absent = ground (arith, get-drop-last zero hits key e)
get-drop-last (suc n) ((j, d) ∷ hits) key e h absent = ground (arith, get-drop-last n hits key e)

keep-append :
    (p : JsString × Entry → Bool) (hits : Hits) (k : JsString) (e : Entry)
    → p (k, e) ≡ true
    → keep p (hits ++ (k, e) ∷ []) ≡ keep p hits ++ (k, e) ∷ []
keep-append p [] k e h = rw h
keep-append p ((j, d) ∷ hits) k e h = ground (arith, keep-append p hits k e h)

get-keep :
    (p : JsString × Entry → Bool) (hits : Hits) (key : JsString)
    → get key hits ≡ none
    → get key (keep p hits) ≡ none
unfolding get
get-keep p [] key h = refl
get-keep p ((j, d) ∷ hits) key h = ground (arith, get-keep p hits key)

module _ (o : Options) (room : 1 ≤ o.max_entries) (memory : 0 < o.forget_after_ms) where
  get-prune-last :
      (now : ℕ) (hits : Hits) (key : JsString) (e : Entry)
      → alive now (key, e) ≡ true
      → get key hits ≡ none
      → get key (prune o now (hits ++ (key, e) ∷ [])) ≡ some e
  unfolding prune
  get-prune-last now hits key e h absent =
      let kept = keep (alive now) hits in
      rw (keep-append (alive now) hits key e h) (
        get-drop-last _ kept key e (omega (arith, length-append kept ((key, e) ∷ [])))
          (get-keep (alive now) hits key absent))

  get-append-last :
      (hits : Hits) (key : JsString) (e : Entry)
      → get key hits ≡ none
      → get key (hits ++ (key, e) ∷ []) ≡ some e
  get-append-last hits key e absent = get-drop-last 0 hits key e (omega arith) absent

  next_entry-alive :
      (key : JsString) (now : ℕ) (hits : Hits) → alive now (key, next_entry o key now hits) ≡ true
  unfolding next_entry
  next_entry-alive key now hits = ground arith

  pub get-fail :
      (key : JsString) (now : ℕ) (hits : Hits)
      → get key (fail o key now hits).1 ≡ some (next_entry o key now hits)
  unfolding fail
  get-fail key now hits =
      let e = next_entry o key now hits in
      let rest = delete key hits in
      let absent : get key rest ≡ none = ground (arith, get-delete key key hits, ===_refl key) in
      elim (Bool-cases (ltb o.max_entries (length (rest ++ (key, e) ∷ [])) || e.fails % 32 == 0)) [
        | inl full ↦ rw full (get-prune-last now rest key e (next_entry-alive key now hits) absent)
        | inr fits ↦ rw fits (get-append-last rest key e absent)
      ]

  until-next_entry :
      (key : JsString) (now : ℕ) (hits : Hits)
      → (next_entry o key now hits).until ≡ now + delay_for o (next_entry o key now hits).fails
  unfolding next_entry
  until-next_entry key now hits = refl

  retry_after_of_known :
      (key : JsString) (t : ℕ) (hits : Hits) (e : Entry)
      → get key hits ≡ some e
      → t < e.forget_at
      → retry_after o key t hits ≡ (if ltb t e.until then ceil_seconds (e.until - t) else 0, hits)
  unfolding retry_after
  retry_after_of_known key t hits e found known = ground arith

  seconds-fail :
      (key : JsString) (now : ℕ) (hits : Hits)
      → (fail o key now hits).0 ≡ ceil_seconds (delay_for o (next_entry o key now hits).fails)
  unfolding fail
  seconds-fail key now hits = refl

  next_entry_of_known :
      (key : JsString) (t : ℕ) (hits : Hits) (e : Entry)
      → get key hits ≡ some e
      → t < e.forget_at
      → (next_entry o key t hits).fails ≡ e.fails + 1
  unfolding next_entry
  next_entry_of_known key t hits e found known = ground arith

  next_entry_of_none :
      (key : JsString) (t : ℕ) (hits : Hits)
      → get key hits ≡ none
      → (next_entry o key t hits).fails ≡ 1
  unfolding next_entry
  next_entry_of_none key t hits absent = ground arith

  get-succeed : (key : JsString) (hits : Hits) → get key (succeed o key hits) ≡ none
  unfolding succeed
  get-succeed key hits = ground (arith, get-delete key key hits, ===_refl key)

  -- After a failed sign-in at time `now`, `fail` reports the delay in whole seconds. At any time `t` from
  -- then on at which the failure is not forgotten, `retryAfter` answers the rest of the delay in seconds,
  -- rounded up, and 0 once it has passed, and keeps the record.
  pub fail-retry_after :
      (key : JsString) (now t : ℕ) (hits : Hits)
      → now ≤ t
      → t < (next_entry o key now hits).forget_at
      → let delay = delay_for o (next_entry o key now hits).fails in
        let (seconds, after) = fail o key now hits in
        (seconds ≡ ceil_seconds delay)
        × (retry_after o key t after
            ≡ (if ltb t (now + delay) then ceil_seconds (now + delay - t) else 0, after))
  fail-retry_after key now t hits later known =
      let after = (fail o key now hits).1 in
      (
        seconds-fail key now hits,
        rw (← until-next_entry key now hits) (
            retry_after_of_known key t after (next_entry o key now hits) (get-fail key now hits)
              known),
      )

  -- A further failure before the last one is forgotten counts one more, so the delay goes on growing from
  -- where it was even when the account was free to try; a success starts the count again.
  pub fail-escalates :
      (key : JsString) (now t : ℕ) (hits : Hits)
      → t < (next_entry o key now hits).forget_at
      → ((next_entry o key t (fail o key now hits).1).fails ≡ (next_entry o key now hits).fails + 1)
        × ((next_entry o key t (succeed o key (fail o key now hits).1)).fails ≡ 1)
  fail-escalates key now t hits known = (
    next_entry_of_known key t (fail o key now hits).1 _ (get-fail key now hits) known,
    next_entry_of_none key t _ (get-succeed key (fail o key now hits).1),
  )

grown_delay :
    (o : Options) (f g : ℕ)
    → f ≤ g
    → o.base_delay_ms * 2 ^ min (f - o.threshold) 20
      ≤ o.base_delay_ms * 2 ^ min (g - o.threshold) 20
grown_delay o f g h =
    let steps : min (f - o.threshold) 20 ≤ min (g - o.threshold) 20 = omega arith in
    grind (arith, pow-le-pow_right {n = 2} (omega arith) steps)

-- The delay never passes its cap and does not fall as failures add up.
pub delay_for_bounds :
    (o : Options) (f g : ℕ)
    → f ≤ g
    → (delay_for o f ≤ delay_for o g) × (delay_for o g ≤ o.max_delay_ms)
unfolding delay_for
delay_for_bounds o f g h = ground (arith, grown_delay o f g h)
