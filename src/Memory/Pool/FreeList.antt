-- ===== src/Memory/Pool/FreeList.antt =====
-- The lists of free chunks, linked through `next` in the heap.
use high_performance_concurr.Base.{
  dec_lt, ℕ, ◌≤◌, ◌<◌, ◌≡◌, sym, ◌∙◌, ap, ◌≢◌, Bool, false, Option, none, some, List, [], ◌∷◌,
  arith,
}
use high_performance_concurr.Memory.Chunk.{Chunk}
use high_performance_concurr.Memory.Store.{update}

abbrev pub NotIn : ℕ → List ℕ → Type 0
NotIn a [] = Unit {0}
NotIn a (x ∷ xs) = (x ≢ a) × NotIn a xs

-- From `p` on the heap holds a list of the distinct chunks `xs`, each empty, of capacity `k`, and
-- not handed out.
abbrev pub Seg : (ℕ → Option Chunk) → (ℕ → Bool) → ℕ → Option ℕ → List ℕ → Type 0
Seg heap held k p [] = p ≡ none
Seg heap held k p (a ∷ xs) =
    (c : Chunk) × (p ≡ some a)
    × (heap a ≡ some c)
    × ((c.capacity ≡ k) × (c.length ≡ 0) × (c.head ≡ 0))
    × (held a ≡ false)
    × NotIn a xs
    × Seg heap held k c.next xs

pub update-ne {ℓ} : {A : Type ℓ} (f : ℕ → A) (a : ℕ) (v : A) (b : ℕ) → b ≢ a → update f a v b ≡ f b
update-ne f a v b h = ground arith

module _ (heap : ℕ → Option Chunk) (held : ℕ → Bool) (k b : ℕ) where
  -- A write outside the list leaves the list.
  pub Seg-write :
      (v : Option Chunk) (p : Option ℕ) (xs : List ℕ)
      → NotIn b xs
      → Seg heap held k p xs
      → Seg (update heap b v) held k p xs
  Seg-write v p [] out s = s
  Seg-write v p (a ∷ xs) out (c, e, at, fit, free, once, rest) =
      (c, e, update-ne heap b v a out.0 ∙ at, fit, free, once, Seg-write v c.next xs out.1 rest)

  pub Seg-mark :
      (v : Bool) (p : Option ℕ) (xs : List ℕ)
      → NotIn b xs
      → Seg heap held k p xs
      → Seg heap (update held b v) k p xs
  Seg-mark v p [] out s = s
  Seg-mark v p (a ∷ xs) out (c, e, at, fit, free, once, rest) =
      (c, e, at, fit, update-ne held b v a out.0 ∙ free, once, Seg-mark v c.next xs out.1 rest)

  -- What is no free chunk of capacity `k` is not in the list.
  pub Seg-NotIn :
      (p : Option ℕ) (xs : List ℕ)
      → ((c : Chunk) → heap b ≡ some c → c.capacity ≡ k → held b ≡ false → ⊥)
      → Seg heap held k p xs
      → NotIn b xs
  Seg-NotIn p [] no_chunk s = tt
  Seg-NotIn p (a ∷ xs) no_chunk (c, e, at, fit, free, once, rest) = (
    λ same. no_chunk c (ap heap (sym same) ∙ at) fit.0 (ap held (sym same) ∙ free),
    Seg-NotIn c.next xs no_chunk rest,
  )

pub update-eq {ℓ} : {A : Type ℓ} (f : ℕ → A) (a : ℕ) (v : A) (b : ℕ) → b ≡ a → update f a v b ≡ v
update-eq f a v b h = ground arith

-- A list of chunks that were there stays, if those chunks stay.
pub Seg-agree :
    (heap heap' : ℕ → Option Chunk) (held : ℕ → Bool) (k n : ℕ) (p : Option ℕ) (xs : List ℕ)
    → ((b : ℕ) → n ≤ b → heap b ≡ none)
    → ((b : ℕ) → b < n → heap' b ≡ heap b)
    → Seg heap held k p xs
    → Seg heap' held k p xs
Seg-agree heap heap' held k n p [] unused same s = s
Seg-agree heap heap' held k n p (a ∷ xs) unused same (c, e, at, fit, free, once, rest) = (
  c,
  e,
  elim (dec_lt a n) [ yes below ↦ same a below ∙ at | no above ↦ cc (at, unused a (omega arith)) ],
  fit,
  free,
  once,
  Seg-agree heap heap' held k n c.next xs unused same rest,
)
