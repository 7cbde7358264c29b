-- ===== src/Log/Queue/Fifo.antt =====
-- What a client of the queue may rely on: a list of at most `cap` items, oldest first, and what a
-- sequence of the locked sections of all threads returns.
use high_performance_concurr.Base.{
  ℕ, Bool, true, false, List, [], ◌∷◌, ◌++◌, length, leb, if◌then◌else◌,
}
use high_performance_concurr.Log.Queue.{Popped, waits, got, failed}

-- A locked section of some thread: `push`, a `pop` up to its wait, a `pop` behind its wait, the
-- same with a time limit that has passed or not, `clear`.
pub data Op {ℓ} (A : Type ℓ) : Type ℓ where
  put : A → Op A
  take : Op A
  wake : Op A
  wake_timed : Bool → Op A
  reset : Op A

pub data Reply {ℓ} (A : Type ℓ) : Type ℓ where
  pushed : Bool → Reply A
  popped : Popped A → Reply A
  cleared : Reply A

module _ {ℓ} {A : Type ℓ} where
  -- The oldest item, or `otherwise` where there is none.
  abbrev pub pop_or : Popped A → List A → List A × Reply A
  pop_or otherwise [] = ([], popped otherwise)
  pop_or otherwise (x ∷ xs) = (xs, popped (got x))

  abbrev pub fifo_step : ℕ → Op A → List A → List A × Reply A
  fifo_step cap (put x) xs =
      if leb cap (length xs) then (xs, pushed false) else (xs ++ x ∷ [], pushed true)
  fifo_step cap take xs = pop_or waits xs
  fifo_step cap wake xs = pop_or failed xs
  fifo_step cap (wake_timed true) xs = (xs, popped failed)
  fifo_step cap (wake_timed false) xs = pop_or failed xs
  fifo_step cap reset xs = ([], cleared)

  abbrev pub fifo_run : ℕ → List (Op A) → List A → List A × List (Reply A)
  fifo_run cap [] xs = (xs, [])
  fifo_run cap (op ∷ ops) xs =
      let (xs', r) = fifo_step cap op xs in let (xs'', rs) = fifo_run cap ops xs' in (xs'', r ∷ rs)
