-- ===== src/Server/Lockout/Capacity.antt =====
-- The map of failures stays within its cap.
use noblechat.Prelude.{
  ℕ, ◌-◌, ◌%◌, ◌≤◌, ◌==◌, ltb, ◌||◌, ◌∷◌, [], ◌++◌, length, keep, JsString, text_eq, delete, arith,
  length-drop, length-delete, Bool-cases, inl, inr,
}
use noblechat.Server.Lockout.{Options, Hits, alive, prune, retry_after, next_entry, fail, succeed}

module _ (o : Options) where
  length-prune : (now : ℕ) (hits : Hits) → length (prune o now hits) ≤ o.max_entries
  unfolding prune
  length-prune now hits =
      let rest = keep (alive now) hits in
      omega (arith, length-drop (length rest - o.max_entries) rest)

  length-fail :
      (key : JsString) (now : ℕ) (hits : Hits) → length (fail o key now hits).1 ≤ o.max_entries
  unfolding fail
  length-fail key now hits =
      let e = next_entry o key now hits in
      let hits' = delete key hits ++ (key, e) ∷ [] in
      elim (Bool-cases (ltb o.max_entries (length hits') || e.fails % 32 == 0)) [
        | inl yes_prune ↦ rw yes_prune (length-prune now hits')
        | inr no_prune ↦ rw no_prune (ground arith)
      ]

  length-retry_after :
      (key : JsString) (now : ℕ) (hits : Hits)
      → length hits ≤ o.max_entries
      → length (retry_after o key now hits).1 ≤ o.max_entries
  unfolding retry_after
  length-retry_after key now hits h = ground (arith, length-delete key hits)

  -- From a map of at most `max_entries` accounts, a failure, a query and a success each leave at most
  -- that many.
  pub Lockout_capacity :
      (key : JsString) (now : ℕ) (hits : Hits)
      → length hits ≤ o.max_entries
      → (length (fail o key now hits).1 ≤ o.max_entries)
        × (length (retry_after o key now hits).1 ≤ o.max_entries)
        × (length (succeed o key hits) ≤ o.max_entries)
  unfolding succeed
  Lockout_capacity key now hits h = (
    length-fail key now hits,
    length-retry_after key now hits h,
    omega (arith, length-delete key hits),
  )
