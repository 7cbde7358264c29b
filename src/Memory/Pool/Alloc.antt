-- ===== src/Memory/Pool/Alloc.antt =====
-- `alloc_chunk`: what it hands out, and that it keeps the invariant.
use high_performance_concurr.Base.{
  ℕ, ◌≡◌, refl, Bool, Option, none, some, List, [], ◌∷◌, Outcome, ok, arith, subst,
}
use high_performance_concurr.Memory.Store.{Mem, Grant}
use high_performance_concurr.Memory.Pool.{grow, take_front, alloc_class, alloc_chunk, class_of}
use high_performance_concurr.Memory.Pool.Classes.{IsClass, IsBest, class_of-IsBest}
use high_performance_concurr.Memory.Pool.FreeList.{Seg}
use high_performance_concurr.Memory.Pool.Invariant.{Inv, Ensures}
use high_performance_concurr.Memory.Pool.Handout.{
  Allocated, Exhausted, pool_of_class, grow-Ensures, take-Ensures,
}

module _ (sys : ℕ → Grant) {m : Mem} {free : ℕ → List ℕ} {held : ℕ → Bool}
    (v : Inv m free held) where
  alloc_class-none : (k : ℕ) → m.pool k ≡ some none → alloc_class sys k m ≡ grow sys k m
  unfolding alloc_class
  alloc_class-none k e = ground arith

  alloc_class-some : (k a : ℕ) → m.pool k ≡ some (some a) → alloc_class sys k m ≡ take_front k a m
  unfolding alloc_class
  alloc_class-some k a e = ground arith

  -- Either the list of the class is empty, or its first chunk is there.
  front_cases :
      (k : ℕ) (p : Option ℕ) (xs : List ℕ)
      → m.pool k ≡ some p
      → free k ≡ xs
      → Ensures (Exhausted sys m free k) (Allocated m held k) (alloc_class sys k m)
  front_cases k p [] e f =
      let empty : p ≡ none = subst (Seg m.heap held k p) f (v.shape.lists k p e).1 in
      rw (alloc_class-none k (cc)) (grow-Ensures sys v k (v.shape.lists k p e).0 f)
  front_cases k p (a ∷ xs) e f =
      let (c, top, at, _, _, _, _) = subst (Seg m.heap held k p) f (v.shape.lists k p e).1 in
      let first : m.pool k ≡ some (some a) = cc in
      rw (alloc_class-some k a first) (take-Ensures sys v k a xs c first f at)

  alloc_class-Ensures :
      (k : ℕ)
      → IsClass k
      → Ensures (Exhausted sys m free k) (Allocated m held k) (alloc_class sys k m)
  alloc_class-Ensures k class =
      let (p, e) = pool_of_class v k class in front_cases k p (free k) e refl

  -- What `alloc_chunk` must do once the class is chosen.
  abbrev pub AllocPost : Option ℕ → Outcome (Option ℕ × Mem) → Type 0
  AllocPost none r = r ≡ ok (none, m)
  AllocPost (some k) r = Ensures (Exhausted sys m free k) (Allocated m held k) r

  by_class :
      (n : ℕ) (choice : Option ℕ)
      → class_of n ≡ choice
      → IsBest n choice
      → AllocPost choice (alloc_chunk sys n m)
  unfolding alloc_chunk
  by_class n none e best = rw (e, alloc_chunk)
  by_class n (some k) e best = rw (e, alloc_chunk) (alloc_class-Ensures k best.0)

  -- From a pool in good order `alloc_chunk n` hands out a chunk of the smallest class that holds
  -- `n` bytes, which is empty and was not handed out, and keeps the pool in good order and every
  -- other chunk as it was. It aborts only where the list of that class is empty and a new chunk
  -- would pass the limit or `new` fails. Where no class holds `n` it returns null and changes
  -- nothing. It never faults.
  pub alloc_chunk-AllocPost :
      (n : ℕ) → (choice : Option ℕ) × IsBest n choice × AllocPost choice (alloc_chunk sys n m)
  alloc_chunk-AllocPost n =
      (class_of n, class_of-IsBest n, by_class n (class_of n) refl (class_of-IsBest n))
