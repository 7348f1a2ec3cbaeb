-- ===== src/Prelude/Maps.antt =====
-- JavaScript's `Map` and `Set` as lists in insertion order.
use Prim.Native.Nat.{suc, ◌+◌, ◌≤◌}
use mathlib.Core.Path.{◌≡◌, refl}
use mathlib.Core.Logic.{◌≢◌}
use mathlib.Core.Bool.{Bool, false, ◌&&◌, ◌||◌, not}
use mathlib.Core.Option.{Option, none, some}
use mathlib.Core.List.{List, [], ◌∷◌, ◌++◌}
use native.Mathlib.Omega.{arith}
use noblechat.Prelude.Tests.{if◌then◌else◌}
use noblechat.Prelude.Lists.{length, keep}
use noblechat.Prelude.Equal.{Eq, ◌===◌, ===_iff}

module _ {ℓ} {A : Type ℓ} ⦃e : Eq A⦄ where
  -- `set.has(a)`, `list.includes(a)`
  abbrev pub includes : List A → A → Bool
  includes [] a = false
  includes (x ∷ xs) a = x === a || includes xs a

  -- `set.add(a)`
  abbrev pub add : A → List A → List A
  add a xs = if includes xs a then xs else xs ++ a ∷ []

  pub includes-snoc :
      (w x : A) (xs : List A) → includes (xs ++ w ∷ []) x ≡ (includes xs x || (w === x))
  includes-snoc w x [] = ground arith
  includes-snoc w x (y ∷ xs) = ground (arith, includes-snoc w x xs)

  pub includes-keep_others :
      (w x : A) (xs : List A)
      → includes (keep (λ h. not (h === w)) xs) x ≡ (includes xs x && not (x === w))
  includes-keep_others w x [] = refl
  includes-keep_others w x (y ∷ xs) =
      ground (arith, includes-keep_others w x xs, ===_iff y w, ===_iff y x, ===_iff x w)

module _ {ℓ κ} {K : Type ℓ} {V : Type κ} ⦃e : Eq K⦄ where
  -- `map.get(k)`
  unfoldable pub get : K → List (K × V) → Option V
  get k [] = none
  get k ((j, v) ∷ m) = if j === k then some v else get k m

  -- `map.set(k, v)`: a key that is there keeps its place.
  unfoldable pub put : K → V → List (K × V) → List (K × V)
  put k v [] = (k, v) ∷ []
  put k v ((j, w) ∷ m) = if j === k then (j, v) ∷ m else (j, w) ∷ put k v m

  -- `map.delete(k)`
  unfoldable pub delete : K → List (K × V) → List (K × V)
  delete k [] = []
  delete k ((j, w) ∷ m) = let rest = delete k m in if j === k then rest else (j, w) ∷ rest

  pub get-put :
      (k j : K) (v : V) (m : List (K × V))
      → get j (put k v m) ≡ (if k === j then some v else get j m)
  unfolding get put
  get-put k j v [] = refl
  get-put k j v ((i, w) ∷ m) =
      ground (arith, get-put k j v m, ===_iff i k, ===_iff i j, ===_iff k j)

  pub get-put_self : (k : K) (v : V) (m : List (K × V)) → get k (put k v m) ≡ some v
  get-put_self k v m = ground (arith, get-put k k v m, ===_iff k k)

  pub get-delete :
      (k j : K) (m : List (K × V)) → get j (delete k m) ≡ (if k === j then none else get j m)
  unfolding get delete
  get-delete k j [] = ground arith
  get-delete k j ((i, w) ∷ m) =
      ground (arith, get-delete k j m, ===_iff i k, ===_iff i j, ===_iff k j)

  pub length-delete : (k : K) (m : List (K × V)) → length (delete k m) ≤ length m
  unfolding delete
  length-delete k [] = omega arith
  length-delete k ((i, w) ∷ m) = ground (arith, length-delete k m)

  pub length-put : (k : K) (v : V) (m : List (K × V)) → length (put k v m) ≤ length m + 1
  unfolding put
  length-put k v [] = omega arith
  length-put k v ((i, w) ∷ m) = ground (arith, length-put k v m)

  -- A key that is there is not counted again, and one that is deleted is counted less.
  pub length-delete-lt :
      (k : K) (m : List (K × V)) → get k m ≢ none → suc (length (delete k m)) ≤ length m
  unfolding get delete
  length-delete-lt k [] h = absurd (h refl)
  length-delete-lt k ((i, w) ∷ m) h = ground (arith, length-delete k m, length-delete-lt k m)
