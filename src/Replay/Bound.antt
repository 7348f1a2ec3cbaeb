-- ===== src/Replay/Bound.antt =====
-- The memory of the guard.
use noblechat.Prelude.{ℕ, ◌*◌, ◌≤◌, List, [], ◌∷◌, length, Eq, arith}
use noblechat.Replay.{Options, Guard, fresh_guard, seen, size, run}

module _ {ℓ} {T : Type ℓ} ⦃e : Eq T⦄ (o : Options) (room : 1 ≤ o.max_per_epoch) where
  record IsBounded (g : Guard T) : Type 0 where
    current : length g.cur ≤ o.max_per_epoch
    previous : length g.prev ≤ o.max_per_epoch

  seen-IsBounded : (tag : T) (now : ℕ) {g : Guard T} → IsBounded g → IsBounded (seen o tag now g).1
  unfolding seen
  seen-IsBounded tag now h = ground arith

  run-IsBounded : (calls : List (T × ℕ)) {g : Guard T} → IsBounded g → IsBounded (run o calls g)
  unfolding run
  run-IsBounded [] h = h
  run-IsBounded ((tag, now) ∷ calls) h = run-IsBounded calls (seen-IsBounded tag now h)

  -- Whatever packets arrive and whenever, a guard that holds at least one tag per epoch never holds
  -- more than two epochs' worth of tags.
  pub size-run-le : (calls : List (T × ℕ)) → size (run o calls fresh_guard) ≤ 2 * o.max_per_epoch
  unfolding size
  size-run-le calls = omega (arith, run-IsBounded calls {g = fresh_guard} (omega arith))
