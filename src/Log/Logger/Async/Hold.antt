-- ===== src/Log/Logger/Async/Hold.antt =====
-- What the queue of a logger does to the lines that it holds.
use high_performance_concurr.Base.{
  ℕ, ◌≡◌, Bool, true, false, List, [], ◌∷◌, ◌++◌, length, leb, ◌⊎◌, inl, inr, Bool-cases, Outcome,
  ok, aborted, fault, ◌>>=◌,
}
use high_performance_concurr.Log.Queue.{Queue, Popped, waits, got, failed, push, pop, pop_woken}
use high_performance_concurr.Log.Queue.Fifo.{Reply, pushed}
use high_performance_concurr.Log.Queue.Refine.{Holds, push-Holds, pop-Holds}
use high_performance_concurr.Log.Logger.{Line}

from_put :
    (r : Outcome (Queue Line × Bool)) (q' : Queue Line) (b : Bool)
    → ◌≡◌ {A = Outcome (Queue Line × Reply Line)}
        (r >>= λ t. ok (t.0, pushed t.1))
        (ok (q', pushed b))
    → r ≡ ok (q', b)
from_put (ok (q1, b1)) q' b e = cc
from_put aborted q' b e = cc
from_put fault q' b e = cc

-- `push` takes a line, or it finds the queue full.
pub offer_cases :
    {cap : ℕ} {q : Queue Line} {xs : List Line} (x : Line)
    → Holds cap q xs
    → ((q' : Queue Line) × (push q x ≡ ok (q', false)) × Holds cap q' xs)
      ⊎ ((q' : Queue Line) × (push q x ≡ ok (q', true)) × Holds cap q' (xs ++ (x ∷ [])))
offer_cases {cap} {q} {xs} x h =
    let (q', e, h') = push-Holds x h in
    elim (Bool-cases (leb cap (length xs))) [
      | inl full ↦ inl (q', from_put (push q x) q' false (rw full at e), rw full at h')
      | inr room ↦ inr (q', from_put (push q x) q' true (rw room at e), rw room at h')
    ]

-- What a `pop` gives, the writer's line and what stays.
abbrev pub first_of : Popped Line → List Line → Popped Line × List Line
first_of otherwise [] = (otherwise, [])
first_of otherwise (x ∷ xs) = (got x, xs)

pub pop_first :
    {cap : ℕ} {q : Queue Line} (xs : List Line)
    → Holds cap q xs
    → (q' : Queue Line) × (pop q ≡ ok (q', (first_of waits xs).0))
      × Holds cap q' (first_of waits xs).1
unfolding pop
pop_first [] h = pop-Holds [] waits h
pop_first (x ∷ xs) h = pop-Holds (x ∷ xs) waits h

pub woken_first :
    {cap : ℕ} {q : Queue Line} (xs : List Line)
    → Holds cap q xs
    → (q' : Queue Line) × (pop_woken q ≡ ok (q', (first_of failed xs).0))
      × Holds cap q' (first_of failed xs).1
unfolding pop_woken
woken_first [] h = pop-Holds [] failed h
woken_first (x ∷ xs) h = pop-Holds (x ∷ xs) failed h
