-- ===== src/Threadpool/Count.antt =====
-- How many workers are at a place: sums of a weight over a list, and what a change of one item does.
use high_performance_concurr.Base.{
  ℕ, zero, suc, ◌+◌, ◌≤◌, ◌≡◌, refl, ap, some, List, [], ◌∷◌, arith, get_elem?, set, length, map,
  replicate,
}

module _ {A : Type 0} where
  abbrev pub total : (A → ℕ) → List A → ℕ
  total w [] = 0
  total w (x ∷ xs) = w x + total w xs

  pub total-set :
      (w : A → ℕ) (xs : List A) (i : ℕ) (x y : A)
      → get_elem? xs i ≡ some x
      → total w (set xs i y) + w x ≡ total w xs + w y
  total-set w [] i x y e = cc
  total-set w (z ∷ xs) zero x y e = let same : z ≡ x = cc in omega (arith, ap w same)
  total-set w (z ∷ xs) (suc i) x y e = omega (arith, total-set w xs i x y e)

  pub total-le : (w : A → ℕ) → ((x : A) → w x ≤ 1) → (xs : List A) → total w xs ≤ length xs
  total-le w small [] = omega arith
  total-le w small (x ∷ xs) = omega (arith, small x, total-le w small xs)

  -- An item that weighs nothing is room under the length; one that weighs 1 is in the sum.
  pub total_room :
      (w : A → ℕ)
      → ((x : A) → w x ≤ 1)
      → (xs : List A) (i : ℕ) (x : A) → get_elem? xs i ≡ some x
      → total w xs + 1 ≤ length xs + w x
  total_room w small [] i x e = cc
  total_room w small (z ∷ xs) zero x e =
      let same : z ≡ x = cc in omega (arith, ap w same, total-le w small xs)
  total_room w small (z ∷ xs) (suc i) x e = omega (arith, small z, total_room w small xs i x e)

  pub total_part :
      (w : A → ℕ) (xs : List A) (i : ℕ) (x : A) → get_elem? xs i ≡ some x → w x ≤ total w xs
  total_part w [] i x e = cc
  total_part w (z ∷ xs) zero x e = let same : z ≡ x = cc in omega (arith, ap w same)
  total_part w (z ∷ xs) (suc i) x e = omega (arith, total_part w xs i x e)

  pub total_map :
      (w : A → ℕ) (f : A → A)
      → ((x : A) → w (f x) ≡ w x)
      → (xs : List A) → total w (map f xs) ≡ total w xs
  total_map w f same [] = refl
  total_map w f same (x ∷ xs) = omega (arith, same x, total_map w f same xs)

  pub total-replicate : (w : A → ℕ) (n : ℕ) (x : A) → w x ≡ 0 → total w (replicate n x) ≡ 0
  total-replicate w zero x e = refl
  total-replicate w (suc n) x e = omega (arith, e, total-replicate w n x e)

  pub length_map : (f : A → A) (xs : List A) → length (map f xs) ≡ length xs
  length_map f [] = refl
  length_map f (x ∷ xs) = ap suc (length_map f xs)
