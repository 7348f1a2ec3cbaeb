-- ===== src/Replay/Window.antt =====
-- A replay within one epoch is caught.
use noblechat.Prelude.{
  ℕ, suc, ◌+◌, ◌≤◌, ◌<◌, List, [], ◌∷◌, Option, none, some, true, false, length, Eq, arith, ◌≡◌,
  ◌⊎◌, includes, All, ===_refl, subst,
}
use noblechat.Replay.{Options, Guard, seen, run}

module _ {ℓ} {T : Type ℓ} ⦃e : Eq T⦄ (o : Options) (tag : T) (t0 : ℕ) where
  abbrev BeganAfter : Option ℕ → Type 0
  BeganAfter none = ⊥
  BeganAfter (some start) = t0 ≤ start

  -- At most `n` calls after the tag was taken at time `t0`: it is in the current epoch, or in the
  -- previous one, and then the current one began no earlier and holds at most `n` tags.
  abbrev Holds : ℕ → Guard T → Type 0
  Holds n g =
      (includes g.cur tag ≡ true)
      ⊎ ((includes g.prev tag ≡ true) × BeganAfter g.epoch_start × (length g.cur ≤ n))

  -- The times at which the tag must still be known.
  abbrev Within : ℕ → Type 0
  Within now = (t0 ≤ now) × (now < t0 + o.epoch_ms)

  seen-Holds :
      (n : ℕ) (other : T) (now : ℕ) (g : Guard T)
      → Within now
      → n < o.max_per_epoch
      → Holds n g
      → Holds (n + 1) (seen o other now g).1
  unfolding seen
  seen-Holds n other now g w few h = seen_fields n other now g.cur g.prev g.epoch_start w few h
    where
      seen_fields :
          (n : ℕ) (other : T) (now : ℕ) (cur prev : List T) (start : Option ℕ)
          → Within now
          → n < o.max_per_epoch
          → Holds n (record { cur = cur; prev = prev; epoch_start = start })
          → Holds
              (n + 1)
              (seen o other now (record { cur = cur; prev = prev; epoch_start = start })).1
      seen_fields n other now cur prev none w few h = ground arith
      seen_fields n other now cur prev (some start) w few h = ground arith

  run-Holds :
      (n : ℕ) (calls : List (T × ℕ)) (g : Guard T)
      → All (λ c. Within c.1) calls
      → n + length calls ≤ o.max_per_epoch
      → Holds n g
      → Holds (n + length calls) (run o calls g)
  unfolding run
  run-Holds n [] g w few h = subst (λ m. Holds m g) (omega arith) h
  run-Holds n ((other, now) ∷ calls) g (here, later) few h =
      let count : n + 1 + length calls ≡ n + suc (length calls) = omega arith in
      subst (λ m. Holds m (run o calls (seen o other now g).1)) count
        (run-Holds (n + 1) calls (seen o other now g).1 later (omega arith)
          (seen-Holds n other now g here (omega arith) h))

  first-Holds : (g : Guard T) → (seen o tag t0 g).0 ≡ false → Holds 0 (seen o tag t0 g).1
  unfolding seen
  first-Holds g h = ground (arith, ===_refl tag)

  seen_of_Holds :
      (n now : ℕ) (g : Guard T)
      → Within now
      → n < o.max_per_epoch
      → Holds n g
      → (seen o tag now g).0 ≡ true
  unfolding seen
  seen_of_Holds n now g w few h = at_fields g.cur g.prev g.epoch_start h
    where
      at_fields :
          (cur prev : List T) (start : Option ℕ)
          → Holds n (record { cur = cur; prev = prev; epoch_start = start })
          → (seen o tag now (record { cur = cur; prev = prev; epoch_start = start })).0 ≡ true
      at_fields cur prev none h = ground arith
      at_fields cur prev (some start) h = ground arith

-- A tag that the guard took at time `t0` is reported as a replay at every time from then until one
-- epoch later, whatever other calls lie between, as long as their times lie in that span too and
-- there are fewer of them than an epoch's capacity.
pub seen-replay {ℓ} :
    {T : Type ℓ} ⦃e : Eq T⦄ (o : Options) (g : Guard T) (tag : T) (t0 now : ℕ)
    (calls : List (T × ℕ))
    → (seen o tag t0 g).0 ≡ false
    → All (λ c. (t0 ≤ c.1) × (c.1 < t0 + o.epoch_ms)) calls
    → (t0 ≤ now) × (now < t0 + o.epoch_ms)
    → length calls < o.max_per_epoch
    → (seen o tag now (run o calls (seen o tag t0 g).1)).0 ≡ true
seen-replay o g tag t0 now calls fresh between within few =
    let taken = (seen o tag t0 g).1 in
    seen_of_Holds o tag t0 (length calls) now (run o calls taken) within few (
      subst (λ n. Holds o tag t0 n (run o calls taken)) (omega arith)
        (run-Holds o tag t0 0 calls taken between (omega arith) (first-Holds o tag t0 g fresh)))
