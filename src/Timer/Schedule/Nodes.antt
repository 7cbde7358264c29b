-- ===== src/Timer/Schedule/Nodes.antt =====
-- How often an identifier stands in a queue, and what `push` does to a queue.
use high_performance_concurr.Base.{
  ℕ, ◌+◌, ◌≤◌, ◌≡◌, ◌≢◌, refl, Bool, true, false, List, [], ◌∷◌, ◌++◌, arith, All, inl, inr,
  Bool-cases, ◌==◌, ltb,
}
use high_performance_concurr.Timer.Schedule.{Node, push}

abbrev pub one_if : Bool → ℕ
one_if true = 1
one_if false = 0

pub one_le : (b : Bool) → one_if b ≤ 1
one_le true = omega arith
one_le false = omega arith

pub other_id : (a b : ℕ) → a ≢ b → one_if (a == b) ≡ 0
other_id a b ne = let other : (a == b) ≡ false = ground arith in rw other

module _ {Task : Type 0} where
  -- How many nodes of a queue have an identifier, and how many posts are of it.
  abbrev pub nodes : ℕ → List (Node Task) → ℕ
  nodes id [] = 0
  nodes id (s ∷ q) = one_if (s.id == id) + nodes id q

  abbrev pub posts_of : ℕ → List (ℕ × Task) → ℕ
  posts_of id [] = 0
  posts_of id (p ∷ ps) = one_if (p.0 == id) + posts_of id ps

  pub posts_of-append :
      (id : ℕ) (ps qs : List (ℕ × Task)) → posts_of id (ps ++ qs) ≡ posts_of id ps + posts_of id qs
  posts_of-append id [] qs = omega arith
  posts_of-append id (p ∷ ps) qs = omega (arith, posts_of-append id ps qs)

  pub nodes-push :
      (id : ℕ) (s : Node Task) (q : List (Node Task))
      → nodes id (push s q) ≡ one_if (s.id == id) + nodes id q
  unfolding push
  nodes-push id s [] = refl
  nodes-push id s (x ∷ q) = elim (Bool-cases (ltb s.tm_point x.tm_point)) [
    | inl first ↦ rw first
    | inr behind ↦ rw behind (omega (arith, nodes-push id s q))
  ]

  pub push-All :
      (P : Node Task → Type 0) (s : Node Task) (q : List (Node Task))
      → P s
      → All P q
      → All P (push s q)
  unfolding push
  push-All P s [] h hs = (h, tt)
  push-All P s (x ∷ q) h hs = elim (Bool-cases (ltb s.tm_point x.tm_point)) [
    | inl first ↦ rw first (h, hs)
    | inr behind ↦ rw behind (hs.0, push-All P s q h hs.1)
  ]
