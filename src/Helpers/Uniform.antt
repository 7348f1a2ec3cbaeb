-- ===== src/Helpers/Uniform.antt =====
-- The choice of an index is uniform: every index has as many accepted words as any other.
use noblechat.Prelude.{
  ℕ, leb-eq-false, ◌+◌, ◌*◌, ◌/◌, ◌%◌, ◌^◌, ◌<◌, ◌≤◌, leb, if◌then◌else◌, List, [], ◌∷◌, Option,
  none, some, Bool, true, false, Bytes, ◌≡◌, ◌↔◌, ◌∙◌, refl, ap, arith, Bool-cases, subst, inl, inr,
}
use native.Mathlib.Nat.{
  div-lt_iff_lt-mul, mod-lt, mod-eq_of_lt, add-mul-mod_self_right, div-add-mod', add-mul-div_right,
  div-eq_of_lt,
}
use noblechat.Helpers.{word_of, index_limit, draw_index, random_index}

-- The words that the loop accepts for the index r are r, n + r, 2n + r and so on, one for each number below
-- 2 ^ 32 / n; with more than one word to choose from, every index below n has the same number of them.
pub accepted_iff :
    (n r x : ℕ)
    → r < n
    → ((x < index_limit n) × (x % n ≡ r)) ↔ ((q : ℕ) × (q < (2 ^ 32) / n) × (x ≡ r + q * n))
accepted_iff n r x small = (
  λ h. (
    x / n,
    (div-lt_iff_lt-mul (omega (arith, small))).1 h.0,
    omega (arith, div-add-mod' x n, h.1),
  ),
  λ (q, below, made).
      let high : r + q * n < index_limit n = compose q below in
      (rw made high, rw made (add-mul-mod_self_right r q n ∙ mod-eq_of_lt small)),
)
  where
    compose : (q : ℕ) → q < (2 ^ 32) / n → r + q * n < index_limit n
    compose q below = (div-lt_iff_lt-mul (omega (arith, small))).0 (
        omega
          (arith, add-mul-div_right r q {z = n} (omega (arith, small)), div-eq_of_lt small, below))

pub draw_index-lt :
    (n : ℕ) (draws : List Bytes) (i : ℕ) → 0 < n → draw_index n draws ≡ some i → i < n
unfolding draw_index
draw_index-lt n [] i some_node h = absurd (ground (arith, h))
draw_index-lt n (b ∷ draws) i some_node h = elim (Bool-cases (leb (index_limit n) (word_of b))) [
  | inl rejected ↦ draw_index-lt n draws i some_node (
      subst (λ (t : Bool). (if t then draw_index n draws else some (word_of b % n)) ≡ some i)
        rejected h)
  | inr accepted ↦ ground (arith, mod-lt (word_of b) some_node, h, accepted)
]

-- For n at least 2: the index that a word which is accepted gives is its remainder, and the words that are
-- accepted for an index r below n are r, n + r, 2n + r and so on, one for each number below 2 ^ 32 / n, so
-- every index has the same number of them. A rejected word is drawn again. What comes out is below n.
pub random_index-accepted_iff :
    (n r : ℕ) (b : Bytes) (draws : List Bytes)
    → 2 ≤ n
    → r < n
    → (((word_of b < index_limit n) × (random_index n (b ∷ draws) ≡ some r))
        ↔ ((q : ℕ) × (q < (2 ^ 32) / n) × (word_of b ≡ r + q * n)))
      × (index_limit n ≤ word_of b → random_index n (b ∷ draws) ≡ random_index n draws)
      × ((i : ℕ) → random_index n draws ≡ some i → i < n)
unfolding random_index draw_index
random_index-accepted_iff n r b draws many small =
    let choice : leb n 1 ≡ false = leb-eq-false n 1 (omega (arith, many)) in
    let (to, from) = accepted_iff n r (word_of b) small in
    (
      (
        λ h. to (h.0, remainder choice (leb-eq-false (index_limit n) (word_of b) h.0) h.1),
        λ h.
            let (below, same) = from h in
            (
              below,
              rw (random_index, choice, leb-eq-false (index_limit n) (word_of b) below, same) refl,
            ),
      ),
      λ high. rw (random_index, choice, le→leb (index_limit n) (word_of b) high) refl,
      λ i h. draw_index-lt n draws i (omega (arith, many)) (drawn choice i h),
    )
  where
    drawn : leb n 1 ≡ false → (i : ℕ) → random_index n draws ≡ some i → draw_index n draws ≡ some i
    drawn choice i h =
        subst (λ (t : Bool). (if t then some 0 else draw_index n draws) ≡ some i) choice h

    unwrap : {x y : ℕ} → some x ≡ some y → x ≡ y
    unwrap h = ap (λ (t : Option ℕ). elim t [ none ↦ 0 | some z ↦ z ]) h

    remainder :
        leb n 1 ≡ false
        → leb (index_limit n) (word_of b) ≡ false
        → random_index n (b ∷ draws) ≡ some r
        → word_of b % n ≡ r
    remainder choice below h = unwrap (
        subst (λ (u : Bool). (if u then draw_index n draws else some (word_of b % n)) ≡ some r)
          below
          (subst (λ (t : Bool). (if t then some 0 else draw_index n (b ∷ draws)) ≡ some r) choice
            h))

    le→leb : (x y : ℕ) → x ≤ y → leb x y ≡ true
    le→leb x y h = ground (arith, h)
