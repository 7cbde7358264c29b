-- ===== src/Timer/Tick/Timely.antt =====
-- The tick thread sleeps until the first node is due, if there is one.
use high_performance_concurr.Base.{
  ℕ, ◌+◌, ◌-◌, ◌≡◌, refl, sym, subst, Option, none, some, List, [], ◌∷◌, arith, Bool-cases, inl,
  inr, leb, get_elem?, ◌&&◌, ltb, ℕ_discrete,
}
use high_performance_concurr.Timer.HashMap
use high_performance_concurr.Timer.Schedule.{Timer, Node, round, fire, is_later}
use high_performance_concurr.Timer.Schedule.Order.{
  NoneBefore, IsSorted, push-IsSorted, round-IsSorted, cancel-queue,
}
use high_performance_concurr.Timer.Tick.{
  Place, testing, locking, dozing, asleep, ended, posting, TickThread, Event, draws, enters, pushes,
  cancels, tests, rounds, posts_task, sleeps, draw, enter, add_entered, post, wakes, times_out,
  stops, notifies_all, start, add, woken, test, next_place, take_round, fall_asleep, time_out, step,
  run_all,
}

module _ {Task : Type 0} where
  -- A sleep with no end is one with no node; one up to a time is up to the first node's.
  abbrev pub Bounded : Option ℕ → List (Node Task) → Type 0
  Bounded none q = q ≡ []
  Bounded (some u) q =
      (s : Node Task) × (rest : List (Node Task)) × (q ≡ s ∷ rest)
      × (s.tm_point ≡ u)
      × NoneBefore u rest

  abbrev pub Timely : Place Task → List (Node Task) → Type 0
  Timely testing q = Unit {0}
  Timely locking q = Unit {0}
  Timely (posting id f) q = Unit {0}
  Timely ended q = Unit {0}
  Timely (dozing u) q = Bounded u q
  Timely (asleep u) q = Bounded u q

  pub record IsTimely (t : TickThread Task) : Type 0 where
    pub sorted : IsSorted t.timer.queue
    pub timely : Timely t.place t.timer.queue

  fire-Timely :
      (now now' : ℕ) (s : Node Task) (t : Timer Task) (q : List (Node Task))
      → Timely (next_place now (fire now' s t).1) q
  unfolding fire next_place
  fire-Timely now now' s t q = elim (Bool-cases (HashMap.is_key_exist ℕ_discrete s.id t.states)) [
    | inr cancelled ↦ simp cancelled tt
    | inl known ↦ elim (Bool-cases s.is_period) [
      | inl again ↦ simp (known, again) tt
      | inr once ↦ elim (Bool-cases (s.is_repeated && ltb 0 s.repeated_num)) [
        | inl more ↦ simp (known, once, more) tt
        | inr last ↦ simp (known, once, last) tt
      ]
    ]
  ]

  round-Timely :
      (now now' : ℕ) (q : List (Node Task)) (t : Timer Task)
      → t.queue ≡ q
      → IsSorted q
      → Timely (next_place now (round now now' q t).1) (round now now' q t).0.queue
  unfolding round next_place
  round-Timely now now' [] t e h = e
  round-Timely now now' (s ∷ rest) t e h = elim (Bool-cases (is_later s.tm_point now)) [
    | inl later ↦
        let then_due : now + (s.tm_point - now) ≡ s.tm_point = ground arith in
        simp (later, then_due) (s, rest, e, refl, h.0)
    | inr due ↦
        let t1 : Timer Task = record t { queue = rest } in
        simp due (fire-Timely now now' s t1 (fire now' s t1).0.queue)
  ]

  add-IsTimely :
      (p : Place Task) (i : ℕ) (s : Node Task) (t : TickThread Task)
      → t.place ≡ p
      → IsTimely t
      → IsTimely (add p i s t)
  unfolding add woken
  add-IsTimely (dozing u) i s t e h = h
  add-IsTimely testing i s t e h = record {
    sorted = push-IsSorted s t.timer.queue h.sorted;
    timely = rw e tt;
  }
  add-IsTimely locking i s t e h = record {
    sorted = push-IsSorted s t.timer.queue h.sorted;
    timely = rw e tt;
  }
  add-IsTimely (asleep u) i s t e h = record {
    sorted = push-IsSorted s t.timer.queue h.sorted;
    timely = tt;
  }
  add-IsTimely (posting id f) i s t e h = record {
    sorted = push-IsSorted s t.timer.queue h.sorted;
    timely = rw e tt;
  }
  add-IsTimely ended i s t e h = record {
    sorted = push-IsSorted s t.timer.queue h.sorted;
    timely = rw e tt;
  }

  add_entered-IsTimely :
      (i : ℕ) (o : Option (Node Task)) (t : TickThread Task)
      → IsTimely t
      → IsTimely (add_entered i o t)
  unfolding add_entered
  add_entered-IsTimely i none t h = h
  add_entered-IsTimely i (some s) t h = add-IsTimely t.place i s t refl h

  enter-IsTimely :
      (i : ℕ) (o : Option (Node Task)) (t : TickThread Task) → IsTimely t → IsTimely (enter i o t)
  unfolding enter
  enter-IsTimely i none t h = h
  enter-IsTimely i (some s) t h = record { sorted = h.sorted; timely = h.timely }

  post-IsTimely : (p : Place Task) (t : TickThread Task) → IsTimely t → IsTimely (post p t).0
  unfolding post
  post-IsTimely (posting id f) t h = record { sorted = h.sorted; timely = tt }
  post-IsTimely testing t h = h
  post-IsTimely locking t h = h
  post-IsTimely (dozing u) t h = h
  post-IsTimely (asleep u) t h = h
  post-IsTimely ended t h = h

  woken-Timely : (p : Place Task) (q : List (Node Task)) → Timely p q → Timely (woken p) q
  unfolding woken
  woken-Timely testing q h = h
  woken-Timely locking q h = h
  woken-Timely (dozing u) q h = h
  woken-Timely (asleep u) q h = tt
  woken-Timely (posting id f) q h = h
  woken-Timely ended q h = h

  test-IsTimely :
      (p : Place Task) (t : TickThread Task) → t.place ≡ p → IsTimely t → IsTimely (test p t)
  unfolding test
  test-IsTimely testing t e h = elim (Bool-cases t.timer.on) [
    | inl on ↦ record { sorted = h.sorted; timely = rw on tt }
    | inr off ↦ record { sorted = h.sorted; timely = rw off tt }
  ]
  test-IsTimely locking t e h = h
  test-IsTimely (dozing u) t e h = h
  test-IsTimely (asleep u) t e h = h
  test-IsTimely (posting id f) t e h = h
  test-IsTimely ended t e h = h

  take_round-IsTimely :
      (p : Place Task) (now now' : ℕ) (t : TickThread Task)
      → IsTimely t
      → IsTimely (take_round p now now' t)
  unfolding take_round
  take_round-IsTimely locking now now' t h = record {
    sorted = round-IsSorted now now' t.timer.queue t.timer refl h.sorted;
    timely = round-Timely now now' t.timer.queue t.timer refl h.sorted;
  }
  take_round-IsTimely testing now now' t h = h
  take_round-IsTimely (dozing u) now now' t h = h
  take_round-IsTimely (asleep u) now now' t h = h
  take_round-IsTimely (posting id f) now now' t h = h
  take_round-IsTimely ended now now' t h = h

  fall_asleep-IsTimely :
      (p : Place Task) (t : TickThread Task) → t.place ≡ p → IsTimely t → IsTimely (fall_asleep p t)
  unfolding fall_asleep
  fall_asleep-IsTimely (dozing u) t e h = record {
    sorted = h.sorted;
    timely = subst (λ p. Timely p t.timer.queue) e h.timely;
  }
  fall_asleep-IsTimely testing t e h = h
  fall_asleep-IsTimely locking t e h = h
  fall_asleep-IsTimely (asleep u) t e h = h
  fall_asleep-IsTimely (posting id f) t e h = h
  fall_asleep-IsTimely ended t e h = h

  time_out-IsTimely :
      (p : Place Task) (now : ℕ) (t : TickThread Task) → IsTimely t → IsTimely (time_out p now t)
  unfolding time_out
  time_out-IsTimely (asleep (some u)) now t h = elim (Bool-cases (leb u now)) [
    | inl due ↦ rw due (record { sorted = h.sorted; timely = tt })
    | inr early ↦ rw early h
  ]
  time_out-IsTimely (asleep none) now t h = h
  time_out-IsTimely testing now t h = h
  time_out-IsTimely locking now t h = h
  time_out-IsTimely (dozing u) now t h = h
  time_out-IsTimely (posting id f) now t h = h
  time_out-IsTimely ended now t h = h

  step-IsTimely : (e : Event Task) (t : TickThread Task) → IsTimely t → IsTimely (step e t).0
  unfolding step draw
  step-IsTimely (draws s) t h = record { sorted = h.sorted; timely = h.timely }
  step-IsTimely (enters i) t h = enter-IsTimely i (get_elem? t.drawn i) t h
  step-IsTimely (pushes i) t h = add_entered-IsTimely i (get_elem? t.entered i) t h
  step-IsTimely (cancels id) t h =
      let same = sym (cancel-queue id t.timer) in
      record {
        sorted = subst IsSorted same h.sorted;
        timely = subst (Timely t.place) same h.timely;
      }
  step-IsTimely tests t h = test-IsTimely t.place t refl h
  step-IsTimely (rounds now now') t h = take_round-IsTimely t.place now now' t h
  step-IsTimely posts_task t h = post-IsTimely t.place t h
  step-IsTimely sleeps t h = fall_asleep-IsTimely t.place t refl h
  step-IsTimely wakes t h = record {
    sorted = h.sorted;
    timely = woken-Timely t.place t.timer.queue h.timely;
  }
  step-IsTimely (times_out now) t h = time_out-IsTimely t.place now t h
  step-IsTimely stops t h = record { sorted = h.sorted; timely = h.timely }
  step-IsTimely notifies_all t h = record {
    sorted = h.sorted;
    timely = woken-Timely t.place t.timer.queue h.timely;
  }

  run-IsTimely :
      (es : List (Event Task)) (t : TickThread Task) → IsTimely t → IsTimely (run_all es t).0
  run-IsTimely [] t h = h
  run-IsTimely (e ∷ es) t h = run-IsTimely es (step e t).0 (step-IsTimely e t h)

  start-IsTimely : IsTimely start
  unfolding start
  start-IsTimely = record { sorted = tt; timely = tt }

  -- After any history of calls, rounds, posts, wake-ups and the destructor's steps, from the start of the
  -- tick thread: where the thread sleeps, or is about to, with no time to wake up, no node is in the
  -- queue; where it sleeps up to a time, that is the time of the first node, and no other node has an
  -- earlier one. So no timer is slept past.
  pub sleeps_until_first :
      (es : List (Event Task)) → Timely (run_all es start).0.place (run_all es start).0.timer.queue
  sleeps_until_first es = (run-IsTimely es start start-IsTimely).timely
