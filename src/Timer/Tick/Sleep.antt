-- ===== src/Timer/Tick/Sleep.antt =====
-- When the first node is due, the tick thread posts it.
use high_performance_concurr.Base.{
  ℕ, ◌≤◌, ◌≡◌, refl, ◌∙◌, subst, true, false, some, List, [], ◌∷◌, arith, if◌then◌else◌, leb,
  append-nil, ℕ_discrete,
}
use high_performance_concurr.Timer.HashMap
use high_performance_concurr.Timer.Schedule.{
  Action, ends, waits, waits_for, drops, posts, Timer, Node, round, fire, is_later,
}
use high_performance_concurr.Timer.Schedule.History.{posted}
use high_performance_concurr.Timer.Tick.{
  asleep, TickThread, Event, tests, rounds, times_out, posts_task, testing, locking, start, post,
  next_place, test, take_round, time_out, step, run_all,
}
use high_performance_concurr.Timer.Tick.Timely.{Timely, sleeps_until_first}

module _ {Task : Type 0} where
  -- What a round posts of a node that is due.
  abbrev pub known_post : Node Task → Timer Task → List (ℕ × Task)
  known_post s t =
      if HashMap.is_key_exist ℕ_discrete s.id t.states then (s.id, s.callback) ∷ [] else []

  fire-known : (now : ℕ) (s : Node Task) (t : Timer Task) → posted (fire now s t).1 ≡ known_post s t
  unfolding fire
  fire-known now s t = ground arith

  pub due_round :
      (now now' : ℕ) (s : Node Task) (rest q : List (Node Task)) (t : Timer Task)
      → q ≡ s ∷ rest
      → s.tm_point ≤ now
      → posted (round now now' q t).1 ≡ known_post s t
  unfolding round
  due_round now now' s rest q t e due =
      let not_later : is_later s.tm_point now ≡ false = ground arith in
      rw (e, round, not_later) (fire-known now' s (record t { queue = rest }))

  -- Behind a round, what the thread then posts.
  post-next_place :
      (now : ℕ) (a : Action Task) (t : TickThread Task) → (post (next_place now a) t).1 ≡ posted a
  unfolding post next_place
  post-next_place now ends t = refl
  post-next_place now waits t = refl
  post-next_place now (waits_for n) t = refl
  post-next_place now (drops id) t = refl
  post-next_place now (posts id f) t = refl

  timed_out :
      (u now : ℕ) (t : TickThread Task)
      → t.place ≡ asleep (some u)
      → u ≤ now
      → step (times_out now) t ≡ (record t { place = testing }, [])
  unfolding step time_out
  timed_out u now t e due = let passed : leb u now ≡ true = ground arith in simp (e, passed) refl

  tested :
      (t : TickThread Task)
      → t.timer.on ≡ true
      → step tests (record t { place = testing }) ≡ (record t { place = locking }, [])
  unfolding step test
  tested t on = simp on refl

  round_posts :
      (now1 now2 : ℕ) (t : TickThread Task)
      → (run_all (rounds now1 now2 ∷ posts_task ∷ []) (record t { place = locking })).1
        ≡ posted (round now1 now2 t.timer.queue t.timer).1
  unfolding step take_round
  round_posts now1 now2 t =
      append-nil _ ∙ post-next_place now1 (round now1 now2 t.timer.queue t.timer).1 _

  woken_up :
      (u now now1 now2 : ℕ) (t : TickThread Task)
      → t.place ≡ asleep (some u)
      → t.timer.on ≡ true
      → u ≤ now
      → (run_all (times_out now ∷ tests ∷ rounds now1 now2 ∷ posts_task ∷ []) t).1
        ≡ posted (round now1 now2 t.timer.queue t.timer).1
  woken_up u now now1 now2 t e on due =
      simp (timed_out u now t e due, tested t on) (round_posts now1 now2 t)

  -- After any history, where the thread sleeps up to a time and the timer runs: when that time has
  -- come and the thread then tests `tm_running` and takes a round, which reads the clock no earlier,
  -- and goes on behind it, it posts the callback of the first node, whose time it was, unless the node was cancelled.
  pub due_is_posted :
      (es : List (Event Task)) (u now now1 now2 : ℕ)
      → (run_all es start).0.place ≡ asleep (some u)
      → (run_all es start).0.timer.on ≡ true
      → u ≤ now
      → now ≤ now1
      → (s : Node Task) × (rest : List (Node Task)) × ((run_all es start).0.timer.queue ≡ s ∷ rest)
        × (s.tm_point ≡ u)
        × ((run_all
              (times_out now ∷ tests ∷ rounds now1 now2 ∷ posts_task ∷ [])
              (run_all es start).0).1
            ≡ known_post s (run_all es start).0.timer)
  due_is_posted es u now now1 now2 e on due later =
      let t : TickThread Task = (run_all es start).0 in
      let (s, rest, first, at, none_before) =
        subst (λ p. Timely p t.timer.queue) e (sleeps_until_first es) in
      (
        s,
        rest,
        first,
        at,
        woken_up u now now1 now2 t e on due
            ∙ due_round now1 now2 s rest t.timer.queue t.timer first (omega arith),
      )
