-- ===== src/Log/Queue/Run.antt =====
-- Every sequence of locked sections, and what `front` and `back` show.
use native.Mathlib.Nat.{mod-eq_of_lt}
use high_performance_concurr.Base.{get_elem?_outside}
use high_performance_concurr.Base.{
  Bool-cases, inl, inr, subst, ℕ, zero, suc, ◌+◌, ◌%◌, ◌<◌, ◌≡◌, refl, sym, ap, ◌∙◌, true, false,
  Option, some, List, [], ◌∷◌, get_elem?, length, arith, Outcome, ok, fault, ◌>>=◌, if◌then◌else◌,
  ◌==◌,
}
use high_performance_concurr.Log.Queue.{
  ℤ, pos, negsuc, Queue, waits, failed, clear, pop, pop_woken, pop_timed, front,
}
use high_performance_concurr.Log.Queue.Fifo.{
  Op, put, take, wake, wake_timed, reset, fifo_step, fifo_run,
}
use high_performance_concurr.Log.Queue.Refine.{
  queue_step, queue_run, Holds, push-Holds, pop-Holds, not_empty, taken-Holds, IsIndex, behind,
}

module _ {ℓ} {A : Type ℓ} where
  clear-Holds : {cap : ℕ} {q : Queue A} {xs : List A} → Holds cap q xs → Holds cap (clear q) []
  unfolding clear
  clear-Holds h = record {
    valid = record {
      array = h.valid.array;
      positive = h.valid.positive;
      room = omega arith;
      first_in = refl;
      last_in = refl;
      meet = refl;
    };
    items = refl;
    bound = h.bound;
  }

  -- One locked section on a valid ring does what it does on the bounded list of its items.
  step-Holds :
      (op : Op A) {cap : ℕ} {q : Queue A} (xs : List A)
      → Holds cap q xs
      → (q' : Queue A) × (queue_step op q ≡ ok (q', (fifo_step cap op xs).1))
        × Holds cap q' (fifo_step cap op xs).0
  unfolding pop pop_woken pop_timed
  step-Holds (put x) xs h = push-Holds x h
  step-Holds take [] h = let (q', e, h') = pop-Holds [] waits h in (q', rw (e, ◌>>=◌), h')
  step-Holds take (x ∷ xs) h =
      let (q', e, h') = pop-Holds (x ∷ xs) waits h in (q', rw (e, ◌>>=◌), h')
  step-Holds wake [] h = let (q', e, h') = pop-Holds [] failed h in (q', rw (e, ◌>>=◌), h')
  step-Holds wake (x ∷ xs) h =
      let (q', e, h') = pop-Holds (x ∷ xs) failed h in (q', rw (e, ◌>>=◌), h')
  step-Holds (wake_timed true) {q = q} xs h = (q, refl, h)
  step-Holds (wake_timed false) [] h =
      let (q', e, h') = pop-Holds [] failed h in (q', rw (e, ◌>>=◌), h')
  step-Holds (wake_timed false) (x ∷ xs) h =
      let (q', e, h') = pop-Holds (x ∷ xs) failed h in (q', rw (e, ◌>>=◌), h')
  step-Holds reset {q = q} xs h = (clear q, refl, clear-Holds h)

  -- Any sequence of locked sections of any threads, on a valid ring that holds `xs`, neither faults
  -- nor aborts, returns what the same sequence returns on the list `xs` bounded by the capacity,
  -- and leaves a valid ring that holds the list's items.
  pub queue_run-Holds :
      (ops : List (Op A)) {cap : ℕ} {q : Queue A} (xs : List A)
      → Holds cap q xs
      → (q' : Queue A) × (queue_run ops q ≡ ok (q', (fifo_run cap ops xs).1))
        × Holds cap q' (fifo_run cap ops xs).0
  queue_run-Holds [] {q = q} xs h = (q, refl, h)
  queue_run-Holds (op ∷ ops) {cap} {q} xs h =
      let (q1, e1, h1) = step-Holds op xs h in
      let (q2, e2, h2) = queue_run-Holds ops (fifo_step cap op xs).0 h1 in
      (q2, rw (e1, ◌>>=◌, e2, ◌>>=◌), h2)

  -- What `front` does on a queue whose first item is `x`: it does not go round at the capacity.
  abbrev pub front_at : ℕ → A → ℤ → Outcome (Option A)
  front_at cap x (negsuc n) = ok (some x)
  front_at cap x (pos n) = if n + 1 == cap then fault else ok (some x)

  front_by_index :
      {cap : ℕ} (q : Queue A) (x : A) (i : ℤ)
      → q.first ≡ i
      → (q.size == 0) ≡ false
      → length q.items ≡ cap
      → 0 < cap
      → IsIndex cap i
      → get_elem? q.items (behind i % cap) ≡ some x
      → front q ≡ front_at cap x i
  unfolding front
  front_by_index {cap} q x (negsuc zero) e more len some_room index item =
      rw (more, e, ◌>>=◌, ap (get_elem? q.items) (sym (mod-eq_of_lt some_room)) ∙ item)
  front_by_index q x (negsuc (suc n)) e more len some_room index item = absurd (omega arith)
  front_by_index {cap} q x (pos n) e more len some_room index item =
      elim (Bool-cases (n + 1 == cap)) [
        | inl end ↦
            rw (more, e, ◌>>=◌, end, get_elem?_outside q.items (n + 1) (ground (arith, len)))
        | inr not_end ↦
            let small : n + 1 < cap = ground arith in
            rw (more, e, ◌>>=◌, not_end, ap (get_elem? q.items) (sym (mod-eq_of_lt small)) ∙ item)
      ]

  -- `front`, on a valid queue with items, gives the oldest one, except where that one stands at
  -- index 0 because the ring has gone round: then it reads behind the end of the array.
  pub front_lem :
      {cap : ℕ} {q : Queue A} (x : A) (xs : List A)
      → Holds cap q (x ∷ xs)
      → front q ≡ front_at cap x q.first
  front_lem {cap} {q} x xs h =
      front_by_index q x q.first refl (not_empty x xs h) (h.valid.array ∙ h.bound)
        (subst (λ (c : ℕ). 0 < c) h.bound h.valid.positive)
        (subst (λ (c : ℕ). IsIndex c q.first) h.bound h.valid.first_in)
        (subst (λ (c : ℕ). get_elem? q.items (behind q.first % c) ≡ some x) h.bound
          (taken-Holds x xs h).0)
