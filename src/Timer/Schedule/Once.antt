-- ===== src/Timer/Schedule/Once.antt =====
-- A one-shot timer runs at most once.
use high_performance_concurr.Base.{
  ℕ, ◌+◌, ◌-◌, ◌^◌, ◌≤◌, ◌<◌, ◌≡◌, ◌≢◌, refl, true, false, List, [], ◌∷◌, length, subst, arith, All,
  ◌⊎◌, inl, inr, Bool-cases, ℕ_discrete, ◌==◌, ltb, ◌&&◌,
}
use high_performance_concurr.Timer.HashMap
use high_performance_concurr.Timer.Schedule.{
  Timer, Node, push, add_node, after_node, at_node, repeated_node, run_after, run_at, run_repeated,
  cancel, tick, round, fire, is_later,
}
use high_performance_concurr.Timer.Schedule.History.{
  Event, after, at_point, repeated, cancels, ticks, posted, step, run,
}
use high_performance_concurr.Timer.Schedule.Cancel.{next_id-step}
use high_performance_concurr.Timer.Schedule.Nodes.{
  one_if, one_le, other_id, nodes, posts_of, posts_of-append, nodes-push, push-All,
}

module _ {Task : Type 0} where
  -- A node of another identifier, or one that does not come back.
  abbrev Single : ℕ → Node Task → Type 0
  Single id s = (s.id ≢ id) ⊎ ((s.is_period ≡ false) × (s.is_repeated ≡ false))

  record IsSingle (id : ℕ) (t : Timer Task) : Type 0 where
    old : id < t.next_id
    single : All (Single id) t.queue

  -- Behind a step: posts of the identifier come out of its nodes.
  abbrev Spent : ℕ → ℕ → Timer Task × List (ℕ × Task) → Type 0
  Spent id before r = IsSingle id r.0 × (posts_of id r.1 + nodes id r.0.queue ≤ before)

  add_node-Spent :
      (s : Node Task) (id : ℕ) (t : Timer Task)
      → t.next_id + 1 < 2 ^ 32
      → IsSingle id t
      → Spent id (nodes id t.queue) ((add_node s t).0, [])
  unfolding add_node
  add_node-Spent s id t small h =
      let new : Node Task = record s { id = t.next_id } in
      let ne : t.next_id ≢ id = λ e. absurd (omega (arith, h.old, e)) in
      (
        record {
          old = omega (arith, h.old, small);
          single = push-All (Single id) new t.queue (inl ne) h.single;
        },
        omega (arith, nodes-push id new t.queue, other_id t.next_id id ne),
      )

  cancel-Spent :
      (j id : ℕ) (t : Timer Task) → IsSingle id t → Spent id (nodes id t.queue) (cancel j t, [])
  unfolding cancel
  cancel-Spent j id t h = elim (Bool-cases (HashMap.is_key_exist ℕ_discrete j t.states)) [
    | inl live ↦ simp live (record { old = h.old; single = h.single }, omega arith)
    | inr gone ↦ simp gone (h, omega arith)
  ]

  -- A node of another identifier goes back.
  back-Spent :
      (id post : ℕ) (f : Task) (s : Node Task) (t : Timer Task)
      → s.id ≢ id
      → post ≢ id
      → IsSingle id t
      → IsSingle id (record t { queue = push s t.queue })
        × (posts_of id ((post, f) ∷ []) + nodes id (push s t.queue) ≤ nodes id t.queue)
  back-Spent id post f s t ne pne h = (
    record { old = h.old; single = push-All (Single id) s t.queue (inl ne) h.single },
    omega (arith, nodes-push id s t.queue, other_id s.id id ne, other_id post id pne),
  )

  other-Spent :
      (now id : ℕ) (s : Node Task) (t : Timer Task)
      → s.id ≢ id
      → HashMap.is_key_exist ℕ_discrete s.id t.states ≡ true
      → IsSingle id t
      → Spent id (nodes id t.queue) ((fire now s t).0, posted (fire now s t).1)
  unfolding fire
  other-Spent now id s t ne live h = elim (Bool-cases s.is_period) [
    | inl period ↦
        simp (live, period)
          (back-Spent id s.id s.callback (record s { tm_point = now + s.period; is_period = true })
            t ne ne h)
    | inr once ↦ elim (Bool-cases (s.is_repeated && ltb 0 s.repeated_num)) [
      | inl again ↦
          simp (live, once, again)
            (back-Spent id s.id s.callback
              (record s {
                tm_point = now + s.period;
                repeated_num = s.repeated_num - 1;
                is_period = false;
              })
              t ne ne h)
      | inr last ↦ simp (live, once, last) (h, omega (arith, other_id s.id id ne))
    ]
  ]

  fire-Spent :
      (now id : ℕ) (s : Node Task) (t : Timer Task)
      → Single id s
      → IsSingle id t
      → Spent id
          (one_if (s.id == id) + nodes id t.queue)
          ((fire now s t).0, posted (fire now s t).1)
  unfolding fire
  fire-Spent now id s t one h = elim (Bool-cases (HashMap.is_key_exist ℕ_discrete s.id t.states)) [
    | inr gone ↦ simp gone (h, omega arith)
    | inl live ↦ elim one [
      | inr (once, never) ↦ simp (live, once, never) (h, omega arith)
      | inl ne ↦
          let (single, less) = other-Spent now id s t ne live h in (single, omega (arith, less))
    ]
  ]

  round-Spent :
      (now now' id : ℕ) (q : List (Node Task)) (t : Timer Task)
      → t.queue ≡ q
      → IsSingle id t
      → Spent id (nodes id q) ((round now now' q t).0, posted (round now now' q t).1)
  unfolding round
  round-Spent now now' id [] t e h = (h, rw e (omega arith))
  round-Spent now now' id (s ∷ rest) t e h = elim (Bool-cases (is_later s.tm_point now)) [
    | inl later ↦ rw later (h, rw e (omega arith))
    | inr due ↦
        let all : All (Single id) (s ∷ rest) = subst (All (Single id)) e h.single in
        rw due (
          fire-Spent now' id s (record t { queue = rest }) all.0
            (record { old = h.old; single = all.1 }))
  ]

  tick-Spent :
      (now now' id : ℕ) (t : Timer Task)
      → IsSingle id t
      → Spent id (nodes id t.queue) ((tick now now' t).0, posted (tick now now' t).1)
  unfolding tick
  tick-Spent now now' id t h = elim (Bool-cases t.on) [
    | inl on ↦ simp on (round-Spent now now' id t.queue t refl h)
    | inr off ↦ simp off (h, omega arith)
  ]

  step-Spent :
      (e : Event Task) (id : ℕ) (t : Timer Task)
      → t.next_id + 1 < 2 ^ 32
      → IsSingle id t
      → Spent id (nodes id t.queue) (step e t)
  unfolding run_after run_at run_repeated
  step-Spent (after now ms p f) id t small h = add_node-Spent (after_node now ms p f) id t small h
  step-Spent (at_point p f) id t small h = add_node-Spent (at_node p f) id t small h
  step-Spent (repeated now ms n f) id t small h =
      add_node-Spent (repeated_node now ms n f) id t small h
  step-Spent (cancels j) id t small h = cancel-Spent j id t h
  step-Spent (ticks now now') id t small h = tick-Spent now now' id t h

  run-Spent :
      (es : List (Event Task)) (id : ℕ) (t : Timer Task)
      → t.next_id + length es < 2 ^ 32
      → IsSingle id t
      → posts_of id (run es t).1 ≤ nodes id t.queue
  run-Spent [] id t small h = omega arith
  run-Spent (e ∷ es) id t small h =
      let (h', spent) = step-Spent e id t (omega arith) h in
      let rest = run-Spent es id (step e t).0 (omega (arith, next_id-step e t)) h' in
      omega (arith, spent, rest, posts_of-append id (step e t).1 (run es (step e t).0).1)

  -- The identifiers of the nodes have been given out.
  abbrev pub AreOld : ℕ → List (Node Task) → Type 0
  AreOld n = All (λ s. s.id < n)

  old-Single : (id : ℕ) (q : List (Node Task)) → AreOld id q → All (Single id) q × (nodes id q ≡ 0)
  old-Single id [] h = (tt, refl)
  old-Single id (s ∷ q) h =
      let (singles, none_there) = old-Single id q h.1 in
      let ne : s.id ≢ id = λ e. absurd (omega (arith, h.0, e)) in
      ((inl ne, singles), omega (arith, none_there, other_id s.id id ne))

  -- A timer of `run_after` that is not periodic, on a timer whose nodes all have an identifier that
  -- was given out: over any history of calls and rounds, and as long as the identifiers do not wrap round at 2 ^ 32,
  -- its callback is posted at most once.
  pub one_shot_once :
      (now ms : ℕ) (f : Task) (es : List (Event Task)) (t : Timer Task)
      → AreOld t.next_id t.queue
      → t.next_id + 1 + length es < 2 ^ 32
      → posts_of t.next_id (run es (run_after now ms false f t).0).1 ≤ 1
  unfolding run_after add_node
  one_shot_once now ms f es t old small =
      let s : Node Task = record (after_node now ms false f) { id = t.next_id } in
      let (singles, none_there) = old-Single t.next_id t.queue old in
      let t1 : Timer Task = (add_node (after_node now ms false f) t).0 in
      let spent = run-Spent es t.next_id t1 (omega arith) (record {
        old = omega arith;
        single = push-All (Single t.next_id) s t.queue (inr (refl, refl)) singles;
      }) in
      omega (arith, spent, nodes-push t.next_id s t.queue, none_there, one_le (s.id == t.next_id))
