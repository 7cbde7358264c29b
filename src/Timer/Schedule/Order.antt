-- ===== src/Timer/Schedule/Order.antt =====
-- In which order, and how early, callbacks are posted.
use high_performance_concurr.Base.{
  ℕ, ◌+◌, ◌-◌, ◌≤◌, ◌<◌, ◌≡◌, refl, sym, List, [], ◌∷◌, arith, All, Bool-cases, inl, inr, ltb,
}
use high_performance_concurr.Timer.Schedule.{
  Timer, Node, push, add_node, after_node, at_node, repeated_node, run_after, run_at, run_repeated,
  cancel, tick, round, fire, is_later, ns_per_ms, init,
}
use high_performance_concurr.Timer.Schedule.History.{
  Event, after, at_point, repeated, cancels, ticks, posted, step, run,
}
use high_performance_concurr.Timer.Schedule.Cancel.{fire-Fired}

module _ {Task : Type 0} where
  -- No node of the list is due before the time.
  abbrev pub NoneBefore : ℕ → List (Node Task) → Type 0
  NoneBefore n = All (λ s. n ≤ s.tm_point)

  abbrev pub IsSorted : List (Node Task) → Type 0
  IsSorted [] = Unit {0}
  IsSorted (s ∷ q) = NoneBefore s.tm_point q × IsSorted q

  NoneBefore-mono : (m n : ℕ) (q : List (Node Task)) → m ≤ n → NoneBefore n q → NoneBefore m q
  NoneBefore-mono m n [] h b = tt
  NoneBefore-mono m n (s ∷ q) h b = (omega arith, NoneBefore-mono m n q h b.1)

  NoneBefore-push :
      (n : ℕ) (s : Node Task) (q : List (Node Task))
      → n ≤ s.tm_point
      → NoneBefore n q
      → NoneBefore n (push s q)
  unfolding push
  NoneBefore-push n s [] h b = (h, tt)
  NoneBefore-push n s (x ∷ q) h b = ground (arith, NoneBefore-push n s q h)

  pub push-IsSorted : (s : Node Task) (q : List (Node Task)) → IsSorted q → IsSorted (push s q)
  unfolding push
  push-IsSorted s [] h = (tt, tt)
  push-IsSorted s (x ∷ q) h = elim (Bool-cases (ltb s.tm_point x.tm_point)) [
    | inl before ↦
        let first : s.tm_point < x.tm_point = ground arith in
        rw before
          ((omega arith, NoneBefore-mono s.tm_point x.tm_point q (omega arith) h.0), (h.0, h.1))
    | inr behind ↦
        rw behind (NoneBefore-push x.tm_point s q (ground arith) h.0, push-IsSorted s q h.1)
  ]

  fire-IsSorted :
      (now : ℕ) (s : Node Task) (t : Timer Task)
      → IsSorted t.queue
      → IsSorted (fire now s t).0.queue
  unfolding fire
  fire-IsSorted now s t h =
      let again : Node Task = record s { tm_point = now + s.period } in
      let fewer : Node Task = record s {
        tm_point = now + s.period;
        repeated_num = s.repeated_num - 1;
      } in
      ground (arith, push-IsSorted again t.queue h, push-IsSorted fewer t.queue h)

  add_node-IsSorted :
      (s : Node Task) (t : Timer Task) → IsSorted t.queue → IsSorted (add_node s t).0.queue
  unfolding add_node
  add_node-IsSorted s t h = push-IsSorted (record s { id = t.next_id }) t.queue h

  pub cancel-queue : (id : ℕ) (t : Timer Task) → (cancel id t).queue ≡ t.queue
  unfolding cancel
  cancel-queue id t = ground arith

  pub round-IsSorted :
      (now now' : ℕ) (q : List (Node Task)) (t : Timer Task)
      → q ≡ t.queue
      → IsSorted q
      → IsSorted (round now now' q t).0.queue
  unfolding round
  round-IsSorted now now' [] t e h = rw (sym e) h
  round-IsSorted now now' (s ∷ rest) t e h = elim (Bool-cases (is_later s.tm_point now)) [
    | inl later ↦ simp (later, sym e) h
    | inr due ↦ simp due (fire-IsSorted now' s (record t { queue = rest }) h.1)
  ]

  tick-IsSorted :
      (now now' : ℕ) (t : Timer Task) → IsSorted t.queue → IsSorted (tick now now' t).0.queue
  unfolding tick
  tick-IsSorted now now' t h = elim (Bool-cases t.on) [
    | inl on ↦ simp on (round-IsSorted now now' t.queue t refl h)
    | inr off ↦ simp off h
  ]

  step-IsSorted : (e : Event Task) (t : Timer Task) → IsSorted t.queue → IsSorted (step e t).0.queue
  unfolding run_after run_at run_repeated
  step-IsSorted (after now ms p f) t h = add_node-IsSorted (after_node now ms p f) t h
  step-IsSorted (at_point p f) t h = add_node-IsSorted (at_node p f) t h
  step-IsSorted (repeated now ms n f) t h = add_node-IsSorted (repeated_node now ms n f) t h
  step-IsSorted (cancels j) t h = rw (cancel-queue j t) h
  step-IsSorted (ticks now now') t h = tick-IsSorted now now' t h

  run-IsSorted :
      (es : List (Event Task)) (t : Timer Task) → IsSorted t.queue → IsSorted (run es t).0.queue
  run-IsSorted [] t h = h
  run-IsSorted (e ∷ es) t h = run-IsSorted es (step e t).0 (step-IsSorted e t h)

  -- What a round posts is the callback of a node of the queue that no other node is due before, less
  -- than a millisecond before its time or behind it.
  pub record Due (t : Timer Task) (now id : ℕ) (f : Task) : Type 0 where
    pub node : Node Task
    pub rest : List (Node Task)
    pub top : t.queue ≡ node ∷ rest
    pub is_id : node.id ≡ id
    pub is_callback : node.callback ≡ f
    pub least : All (λ s. node.tm_point ≤ s.tm_point) rest
    pub in_time : node.tm_point < now + ns_per_ms

  abbrev pub DuePosts : Timer Task → ℕ → List (ℕ × Task) → Type 0
  DuePosts t now = All (λ p. Due t now p.0 p.1)

  fire-DuePosts :
      (now now' : ℕ) (s : Node Task) (rest : List (Node Task)) (t t1 : Timer Task)
      → t.queue ≡ s ∷ rest
      → NoneBefore s.tm_point rest
      → s.tm_point < now + ns_per_ms
      → DuePosts t now (posted (fire now' s t1).1)
  fire-DuePosts now now' s rest t t1 e h due = elim (fire-Fired now' s t1).out_cases [
    | inl none_out ↦ rw none_out tt
    | inr (one, there) ↦ rw one (
      record {
        node = s;
        rest = rest;
        top = e;
        is_id = refl;
        is_callback = refl;
        least = h;
        in_time = due;
      },
      tt,
    )
  ]

  round-DuePosts :
      (now now' : ℕ) (q : List (Node Task)) (t : Timer Task)
      → t.queue ≡ q
      → IsSorted q
      → DuePosts t now (posted (round now now' q t).1)
  unfolding round
  round-DuePosts now now' [] t e h = tt
  round-DuePosts now now' (s ∷ rest) t e h = elim (Bool-cases (is_later s.tm_point now)) [
    | inl later ↦ simp later tt
    | inr due ↦
        let close : s.tm_point < now + ns_per_ms = ground arith in
        simp due (fire-DuePosts now now' s rest t (record t { queue = rest }) e h.0 close)
  ]

  tick-DuePosts :
      (now now' : ℕ) (t : Timer Task)
      → IsSorted t.queue
      → DuePosts t now (posted (tick now now' t).1)
  unfolding tick
  tick-DuePosts now now' t h = elim (Bool-cases t.on) [
    | inl on ↦ simp on (round-DuePosts now now' t.queue t refl h)
    | inr off ↦ simp off tt
  ]

  -- After any history of calls and rounds from the constructor, what a round posts is the callback
  -- of the first node of the queue; no other node has an earlier time; and the first reading of the
  -- clock is later than a millisecond before that time.
  pub posts_in_order :
      (es : List (Event Task)) (now now' : ℕ)
      → DuePosts (run es init).0 now (posted (tick now now' (run es init).0).1)
  posts_in_order es now now' = tick-DuePosts now now' (run es init).0 (run-IsSorted es init tt)
