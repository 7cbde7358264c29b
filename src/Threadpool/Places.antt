-- ===== src/Threadpool/Places.antt =====
-- Where the workers of a list are.
use high_performance_concurr.Base.{
  ℕ, zero, suc, ◌≤◌, ◌≡◌, refl, Bool, true, false, some, List, [], ◌∷◌, arith, get_elem?,
  if◌then◌else◌,
}
use high_performance_concurr.Threadpool.{
  Worker, looping, waiting, dozing, asleep, took, running, finished, ended, is_asleep, any,
  asleep_at,
}
use high_performance_concurr.Threadpool.Count.{total}

module _ {Task : Type 0} where
  is_asleep-eq : (w : Worker Task) → is_asleep w ≡ true → w ≡ asleep
  is_asleep-eq asleep e = refl
  is_asleep-eq looping e = cc
  is_asleep-eq waiting e = cc
  is_asleep-eq dozing e = cc
  is_asleep-eq (took t) e = cc
  is_asleep-eq (running t) e = cc
  is_asleep-eq finished e = cc
  is_asleep-eq ended e = cc

  pub asleep_at-elem :
      (ws : List (Worker Task)) (i : ℕ) → asleep_at ws i ≡ true → get_elem? ws i ≡ some asleep
  asleep_at-elem [] i e = cc
  asleep_at-elem (w ∷ ws) zero e = rw (is_asleep-eq w e)
  asleep_at-elem (w ∷ ws) (suc i) e = asleep_at-elem ws i e

  -- A worker that passes a test, counted.
  abbrev pub one : (Worker Task → Bool) → Worker Task → ℕ
  one test w = if test w then 1 else 0

  pub one-le : (test : Worker Task → Bool) (w : Worker Task) → one test w ≤ 1
  one-le test w = ground arith

  pub any-total :
      (test : Worker Task → Bool) (ws : List (Worker Task))
      → any test ws ≡ false
      → total (one test) ws ≡ 0
  any-total test [] e = refl
  any-total test (w ∷ ws) e = ground (arith, any-total test ws)
