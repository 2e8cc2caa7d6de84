-- ===== src/Outline/Matchings.antt =====
-- How many pairings `_all_pairings` of mcp_server/skills/geometry/edge_topology.py makes, and of what.
use openstudio_mcp.Base.{
  ℕ, zero, suc, ◌*◌, ◌≤◌, List, [], ◌∷◌, map, ◌≡◌, refl, ap, ◌∙◌, length, length-append, arith, All,
}
use openstudio_mcp.Facets.Cuts.{All-append}
use openstudio_mcp.Outline.Branch.{picks, with_pair, pair_first, pairings_of, all_pairings}

-- (n - 1)!!
unfoldable pub pairings_count : ℕ → ℕ
pairings_count zero = 1
pairings_count (suc zero) = 0
pairings_count (suc (suc n)) = suc n * pairings_count n

pub pairings_count-le : (n : ℕ) → n ≤ 8 → pairings_count n ≤ 105
unfolding pairings_count
pairings_count-le zero h = omega arith
pairings_count-le (suc zero) h = omega arith
pairings_count-le (suc (suc zero)) h = omega arith
pairings_count-le (suc (suc (suc zero))) h = omega arith
pairings_count-le (suc (suc (suc (suc zero)))) h = omega arith
pairings_count-le (suc (suc (suc (suc (suc zero))))) h = omega arith
pairings_count-le (suc (suc (suc (suc (suc (suc zero)))))) h = omega arith
pairings_count-le (suc (suc (suc (suc (suc (suc (suc zero))))))) h = omega arith
pairings_count-le (suc (suc (suc (suc (suc (suc (suc (suc zero)))))))) h = omega arith
pairings_count-le (suc (suc (suc (suc (suc (suc (suc (suc (suc n))))))))) h =
    absurd (omega (arith, h))

module _ {ℓ} {A : Type ℓ} where
  length-with_pair :
      (p : A × A) (subs : List (List (A × A))) → length (with_pair p subs) ≡ length subs
  unfolding with_pair
  length-with_pair p [] = refl
  length-with_pair p (sub ∷ subs) = omega (arith, length-with_pair p subs)

  -- `(rest[k], [x, *others])` of `(rest[k], others)`
  with_other : A → List (A × List A) → List (A × List A)
  with_other x ks = map (λ (y, ys). (y, x ∷ ys)) ks

  length-with_other : (x : A) (ks : List (A × List A)) → length (with_other x ks) ≡ length ks
  unfolding with_other
  length-with_other x [] = refl
  length-with_other x (k ∷ ks) = omega (arith, length-with_other x ks)

  length-picks : (xs : List A) → length (picks xs) ≡ length xs
  unfolding picks with_other
  length-picks [] = refl
  length-picks (x ∷ xs) = omega (arith, length-with_other x (picks xs), length-picks xs)

  with_other-All :
      (n : ℕ) (x : A) (ks : List (A × List A))
      → All (λ (y, ys). length ys ≡ n) ks
      → All (λ (y, ys). length ys ≡ suc n) (with_other x ks)
  unfolding with_other
  with_other-All n x [] h = tt
  with_other-All n x ((y, ys) ∷ ks) (e, h) = (omega (arith, e), with_other-All n x ks h)

  picks-All : (n : ℕ) (xs : List A) → length xs ≡ suc n → All (λ (y, ys). length ys ≡ n) (picks xs)
  unfolding picks with_other
  picks-All n [] h = tt
  picks-All zero (x ∷ []) h = (refl, tt)
  picks-All zero (x ∷ (y ∷ xs)) h = absurd (omega (arith, h))
  picks-All (suc n) (x ∷ xs) h =
      (omega (arith, h), with_other-All n x (picks xs) (picks-All n xs (omega (arith, h))))

  length-pair_first :
      (x : A) (rec : List A → List (List (A × A))) (c : ℕ) (n : ℕ) (ks : List (A × List A))
      → ((ys : List A) → length ys ≡ n → length (rec ys) ≡ c)
      → All (λ (y, ys). length ys ≡ n) ks
      → length (pair_first x rec ks) ≡ length ks * c
  unfolding pair_first
  length-pair_first x rec c n [] same h = omega arith
  length-pair_first x rec c n ((y, ys) ∷ ks) same (e, h) = omega (
    arith,
    length-append (with_pair (x, y) (rec ys)) (pair_first x rec ks),
    length-with_pair (x, y) (rec ys),
    same ys e,
    length-pair_first x rec c n ks same h,
  )

  pairings_of-count :
      (fuel : ℕ) (items : List A)
      → length items ≤ fuel
      → length (pairings_of fuel items) ≡ pairings_count (length items)
  unfolding pairings_of pairings_count picks
  pairings_of-count fuel [] enough = refl
  pairings_of-count zero (x ∷ xs) enough = absurd (omega (arith, enough))
  pairings_of-count (suc fuel) (x ∷ []) enough = refl
  pairings_of-count (suc fuel) (x ∷ (y ∷ xs)) enough =
      length-pair_first x (pairings_of fuel) (pairings_count (length xs)) (length xs)
        (picks (y ∷ xs))
        (λ ys same.
          pairings_of-count fuel ys (omega (arith, same, enough)) ∙ ap pairings_count same)
        (picks-All (length xs) (y ∷ xs) refl)
      ∙ ap (λ n. n * pairings_count (length xs)) (length-picks (y ∷ xs))

  -- There are (n - 1)!! pairings of n items.
  pub length-all_pairings :
      (items : List A) → length (all_pairings items) ≡ pairings_count (length items)
  unfolding all_pairings
  length-all_pairings items = pairings_of-count (length items) items (omega arith)

  module _ {ℓ'} (P : A → Type ℓ') where
    with_other-kept :
        (x : A) (ks : List (A × List A))
        → P x
        → All (λ (y, ys). P y × All P ys) ks
        → All (λ (y, ys). P y × All P ys) (with_other x ks)
    unfolding with_other
    with_other-kept x [] px h = tt
    with_other-kept x ((y, ys) ∷ ks) px ((py, pys), h) =
        ((py, (px, pys)), with_other-kept x ks px h)

    picks-kept : (xs : List A) → All P xs → All (λ (y, ys). P y × All P ys) (picks xs)
    unfolding picks with_other
    picks-kept [] h = tt
    picks-kept (x ∷ xs) (px, h) = ((px, h), with_other-kept x (picks xs) px (picks-kept xs h))

    with_pair-kept :
        (x y : A) (subs : List (List (A × A)))
        → P x × P y
        → All (All (λ (a, b). P a × P b)) subs
        → All (All (λ (a, b). P a × P b)) (with_pair (x, y) subs)
    unfolding with_pair
    with_pair-kept x y [] p h = tt
    with_pair-kept x y (sub ∷ subs) p (s, h) = ((p, s), with_pair-kept x y subs p h)

    pair_first-kept :
        (x : A) (rec : List A → List (List (A × A))) (ks : List (A × List A))
        → ((ys : List A) → All P ys → All (All (λ (a, b). P a × P b)) (rec ys))
        → P x
        → All (λ (y, ys). P y × All P ys) ks
        → All (All (λ (a, b). P a × P b)) (pair_first x rec ks)
    unfolding pair_first
    pair_first-kept x rec [] ok px h = tt
    pair_first-kept x rec ((y, ys) ∷ ks) ok px ((py, pys), h) =
        All-append (All (λ (a, b). P a × P b)) (with_pair (x, y) (rec ys)) (pair_first x rec ks)
          (with_pair-kept x y (rec ys) (px, py) (ok ys pys)) (pair_first-kept x rec ks ok px h)

    pairings_of-kept :
        (fuel : ℕ) (items : List A)
        → All P items
        → All (All (λ (a, b). P a × P b)) (pairings_of fuel items)
    unfolding pairings_of
    pairings_of-kept fuel [] h = (tt, tt)
    pairings_of-kept zero (x ∷ xs) h = tt
    pairings_of-kept (suc fuel) (x ∷ xs) (px, h) =
        pair_first-kept x (pairings_of fuel) (picks xs) (pairings_of-kept fuel) px (picks-kept xs h)

    pub all_pairings-kept :
        (items : List A) → All P items → All (All (λ (a, b). P a × P b)) (all_pairings items)
    unfolding all_pairings
    all_pairings-kept items h = pairings_of-kept (length items) items h
