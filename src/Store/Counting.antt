-- ===== src/Store/Counting.antt =====
-- How the queries change a count.
use noblechat.Prelude.{
  ◌+◌, ◌≤◌, List, [], ◌∷◌, ◌++◌, Bool, true, false, ◌&&◌, not, ◌≡◌, arith, refl, any, none,
}
use noblechat.Store.Tables.{first, update, count}

module _ {ℓ} {A : Type ℓ} where
  pub count-append : (q : A → Bool) (xs ys : List A) → count q (xs ++ ys) ≡ count q xs + count q ys
  unfolding count
  count-append q [] ys = omega arith
  count-append q (x ∷ xs) ys = ground (arith, count-append q xs ys)

  pub count_of_any : (q : A → Bool) (xs : List A) → any q xs ≡ false → count q xs ≡ 0
  unfolding count
  count_of_any q [] h = refl
  count_of_any q (x ∷ xs) h = ground (arith, count_of_any q xs)

  pub count_split :
      (q p : A → Bool) (xs : List A)
      → count q xs ≡ count (λ x. q x && p x) xs + count (λ x. q x && not (p x)) xs
  unfolding count
  count_split q p [] = refl
  count_split q p (x ∷ xs) = ground (arith, count_split q p xs)

  -- The updated rows have the property, ...
  pub count-update-true :
      (q p : A → Bool) (f : A → A)
      → ((x : A) → q (f x) ≡ true)
      → (xs : List A) → count q (update p f xs) ≡ count (λ x. q x && not (p x)) xs + count p xs
  unfolding count update
  count-update-true q p f h [] = refl
  count-update-true q p f h (x ∷ xs) =
      let rest = count-update-true q p f h xs in ground (arith, rest, h x)

  -- ... or they do not, ...
  pub count-update-false :
      (q p : A → Bool) (f : A → A)
      → ((x : A) → q (f x) ≡ false)
      → (xs : List A) → count q (update p f xs) ≤ count q xs
  unfolding count update
  count-update-false q p f h [] = omega arith
  count-update-false q p f h (x ∷ xs) =
      let rest = count-update-false q p f h xs in ground (arith, rest, h x)

  -- ... or the update does not touch it.
  pub count-update_same :
      (q p : A → Bool) (f : A → A)
      → ((x : A) → q (f x) ≡ q x)
      → (xs : List A) → count q (update p f xs) ≡ count q xs
  unfolding count update
  count-update_same q p f h [] = refl
  count-update_same q p f h (x ∷ xs) =
      let rest = count-update_same q p f h xs in ground (arith, rest, h x)

  pub first_of_count : (q : A → Bool) (xs : List A) → count q xs ≡ 0 → first q xs ≡ none
  unfolding count first
  first_of_count q [] h = refl
  first_of_count q (x ∷ xs) h = ground (arith, first_of_count q xs)

  pub count_and_le : (q p : A → Bool) (xs : List A) → count (λ x. q x && p x) xs ≤ count p xs
  unfolding count
  count_and_le q p [] = omega arith
  count_and_le q p (x ∷ xs) = ground (arith, count_and_le q p xs)
