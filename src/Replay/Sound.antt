-- ===== src/Replay/Sound.antt =====
-- The guard reports no packet that did not come before.
use noblechat.Prelude.{
  ℕ, List, [], ◌∷◌, ◌++◌, false, ◌||◌, Eq, arith, ◌≡◌, refl, includes, map, append_assoc,
  append-nil, sym, subst,
}
use noblechat.Replay.{Options, Guard, fresh_guard, seen, run}

module _ {ℓ} {T : Type ℓ} ⦃e : Eq T⦄ (o : Options) (tag : T) where
  -- The tag was among the calls made so far.
  IsKnown : List T → Guard T → Type 0
  IsKnown past g =
      (includes past tag ≡ false) → (includes g.cur tag ≡ false) × (includes g.prev tag ≡ false)

  includes-append :
      (xs ys : List T) → includes (xs ++ ys) tag ≡ (includes xs tag || includes ys tag)
  includes-append [] ys = refl
  includes-append (x ∷ xs) ys = ground (arith, includes-append xs ys)

  seen-IsKnown :
      (past : List T) (other : T) (now : ℕ) (g : Guard T)
      → IsKnown past g
      → IsKnown (past ++ other ∷ []) (seen o other now g).1
  unfolding seen IsKnown
  seen-IsKnown past other now g h = ground (arith, includes-append past (other ∷ []))

  run-IsKnown :
      (past : List T) (calls : List (T × ℕ)) (g : Guard T)
      → IsKnown past g
      → IsKnown (past ++ map (λ c. c.0) calls) (run o calls g)
  unfolding run
  run-IsKnown past [] g h = subst (λ p. IsKnown p g) (sym (append-nil past)) h
  run-IsKnown past ((other, now) ∷ calls) g h =
      subst (λ p. IsKnown p (run o calls (seen o other now g).1))
        (append_assoc past (other ∷ []) (map (λ c. c.0) calls))
        (run-IsKnown (past ++ other ∷ []) calls (seen o other now g).1
          (seen-IsKnown past other now g h))

  known_absent :
      (calls : List (T × ℕ))
      → includes (map (λ c. c.0) calls) tag ≡ false
      → (includes (run o calls fresh_guard).cur tag ≡ false)
        × (includes (run o calls fresh_guard).prev tag ≡ false)
  unfolding IsKnown
  known_absent calls h = run-IsKnown [] calls fresh_guard (λ _. (refl, refl)) h

  not_seen :
      (now : ℕ) (g : Guard T)
      → (includes g.cur tag ≡ false) × (includes g.prev tag ≡ false)
      → (seen o tag now g).0 ≡ false
  unfolding seen
  not_seen now g h = ground arith

  -- On a fresh guard, after any calls, a tag that none of them brought is not reported.
  pub seen_fresh :
      (calls : List (T × ℕ)) (now : ℕ)
      → includes (map (λ c. c.0) calls) tag ≡ false
      → (seen o tag now (run o calls fresh_guard)).0 ≡ false
  seen_fresh calls now h = not_seen now (run o calls fresh_guard) (known_absent calls h)
