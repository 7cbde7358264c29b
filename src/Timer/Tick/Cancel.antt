-- ===== src/Timer/Tick/Cancel.antt =====
-- `cancel` against the tick thread, which may be about to post.
use high_performance_concurr.Base.{
  ℕ, ◌+◌, ◌^◌, ◌≤◌, ◌<◌, ◌≡◌, ◌≢◌, none, some, List, [], ◌∷◌, length, arith, All, leb, false,
  get_elem?, Bool-cases, inl, inr, refl,
}
use high_performance_concurr.Timer.Schedule.{
  Action, ends, waits, waits_for, drops, posts, cancel, round,
}
use high_performance_concurr.Timer.Schedule.History.{posted}
use high_performance_concurr.Timer.Schedule.Nodes.{posts_of, posts_of-append}
use high_performance_concurr.Timer.Schedule.Cancel.{
  Other, cancel-IsGone, round-IsGone, next_id-cancel, next_id-round,
}
use high_performance_concurr.Timer.Tick.{
  Place, testing, locking, dozing, asleep, posting, ended, TickThread, Event, draws, enters, pushes,
  cancels, tests, rounds, posts_task, sleeps, wakes, times_out, stops, notifies_all, woken, test,
  next_place, take_round, post, fall_asleep, time_out, step, run_all,
}
use high_performance_concurr.Timer.Tick.Settled.{
  pending, Settled, Quiet, kept-Quiet, same-Quiet, draw-Quiet, enter-Quiet, add_entered-Quiet,
  cancel-Quiet,
}

module _ {Task : Type 0} where
  posts_of-Other : (id : ℕ) (ps : List (ℕ × Task)) → All (Other id) ps → posts_of id ps ≡ 0
  posts_of-Other id [] a = refl
  posts_of-Other id (p ∷ ps) a = ground (arith, a.0, posts_of-Other id ps a.1)

  pending-next_place :
      (id now : ℕ) (a : Action Task) → pending id (next_place now a) ≡ posts_of id (posted a)
  unfolding next_place
  pending-next_place id now ends = refl
  pending-next_place id now waits = refl
  pending-next_place id now (waits_for n) = refl
  pending-next_place id now (drops j) = refl
  pending-next_place id now (posts j f) = omega arith

  pending-woken : (id : ℕ) (p : Place Task) → pending id (woken p) ≤ pending id p
  unfolding woken
  pending-woken id testing = omega arith
  pending-woken id locking = omega arith
  pending-woken id (dozing u) = omega arith
  pending-woken id (asleep u) = omega arith
  pending-woken id (posting j f) = omega arith
  pending-woken id ended = omega arith

  test-Quiet :
      (id : ℕ) (p : Place Task) (t : TickThread Task) → Settled id t → Quiet id t (test p t) []
  unfolding test
  test-Quiet id testing t s = elim (Bool-cases t.timer.on) [
    | inl on ↦
        simp on (kept-Quiet id t (record t { place = locking }) refl refl refl (omega arith) s)
    | inr off ↦
        simp off (kept-Quiet id t (record t { place = ended }) refl refl refl (omega arith) s)
  ]
  test-Quiet id locking t s = same-Quiet id t s
  test-Quiet id (dozing u) t s = same-Quiet id t s
  test-Quiet id (asleep u) t s = same-Quiet id t s
  test-Quiet id (posting j f) t s = same-Quiet id t s
  test-Quiet id ended t s = same-Quiet id t s

  take_round-Quiet :
      (id : ℕ) (p : Place Task) (now now' : ℕ) (t : TickThread Task)
      → Settled id t
      → Quiet id t (take_round p now now' t) []
  unfolding take_round
  take_round-Quiet id locking now now' t s =
      let (gone, others) = round-IsGone now now' t.timer.queue id t.timer s.gone in
      let a = (round now now' t.timer.queue t.timer).1 in
      record {
        settled = record { gone = gone; undrawn = s.undrawn };
        fewer = omega (arith, pending-next_place id now a, posts_of-Other id (posted a) others);
        ids = omega (arith, next_id-round now now' t.timer.queue t.timer);
      }
  take_round-Quiet id testing now now' t s = same-Quiet id t s
  take_round-Quiet id (dozing u) now now' t s = same-Quiet id t s
  take_round-Quiet id (asleep u) now now' t s = same-Quiet id t s
  take_round-Quiet id (posting j f) now now' t s = same-Quiet id t s
  take_round-Quiet id ended now now' t s = same-Quiet id t s

  post-Quiet :
      (id : ℕ) (p : Place Task) (t : TickThread Task)
      → t.place ≡ p
      → Settled id t
      → Quiet id t (post p t).0 (post p t).1
  unfolding post
  post-Quiet id (posting j f) t e s = record {
    settled = record { gone = s.gone; undrawn = s.undrawn };
    fewer = rw e (omega arith);
    ids = omega arith;
  }
  post-Quiet id testing t e s = same-Quiet id t s
  post-Quiet id locking t e s = same-Quiet id t s
  post-Quiet id (dozing u) t e s = same-Quiet id t s
  post-Quiet id (asleep u) t e s = same-Quiet id t s
  post-Quiet id ended t e s = same-Quiet id t s

  fall_asleep-Quiet :
      (id : ℕ) (p : Place Task) (t : TickThread Task)
      → Settled id t
      → Quiet id t (fall_asleep p t) []
  unfolding fall_asleep
  fall_asleep-Quiet id (dozing u) t s =
      kept-Quiet id t (record t { place = asleep u }) refl refl refl (omega arith) s
  fall_asleep-Quiet id testing t s = same-Quiet id t s
  fall_asleep-Quiet id locking t s = same-Quiet id t s
  fall_asleep-Quiet id (asleep u) t s = same-Quiet id t s
  fall_asleep-Quiet id (posting j f) t s = same-Quiet id t s
  fall_asleep-Quiet id ended t s = same-Quiet id t s

  time_out-Quiet :
      (id : ℕ) (p : Place Task) (now : ℕ) (t : TickThread Task)
      → Settled id t
      → Quiet id t (time_out p now t) []
  unfolding time_out
  time_out-Quiet id (asleep (some u)) now t s = elim (Bool-cases (leb u now)) [
    | inl due ↦
        simp due (kept-Quiet id t (record t { place = testing }) refl refl refl (omega arith) s)
    | inr early ↦ simp early (same-Quiet id t s)
  ]
  time_out-Quiet id (asleep none) now t s = same-Quiet id t s
  time_out-Quiet id testing now t s = same-Quiet id t s
  time_out-Quiet id locking now t s = same-Quiet id t s
  time_out-Quiet id (dozing u) now t s = same-Quiet id t s
  time_out-Quiet id (posting j f) now t s = same-Quiet id t s
  time_out-Quiet id ended now t s = same-Quiet id t s

  woken-Quiet :
      (id : ℕ) (t : TickThread Task)
      → Settled id t
      → Quiet id t (record t { place = woken t.place }) []
  woken-Quiet id t s =
      kept-Quiet id t (record t { place = woken t.place }) refl refl refl (pending-woken id t.place)
        s

  step-Quiet :
      (id : ℕ) (e : Event Task) (t : TickThread Task)
      → t.timer.next_id + 1 < 2 ^ 32
      → Settled id t
      → Quiet id t (step e t).0 (step e t).1
  unfolding step
  step-Quiet id (draws n) t small s = draw-Quiet id n t small s
  step-Quiet id (enters i) t small s = enter-Quiet id i (get_elem? t.drawn i) t refl s
  step-Quiet id (pushes i) t small s = add_entered-Quiet id i (get_elem? t.entered i) t s
  step-Quiet id (cancels j) t small s = cancel-Quiet id j t s
  step-Quiet id tests t small s = test-Quiet id t.place t s
  step-Quiet id (rounds now now') t small s = take_round-Quiet id t.place now now' t s
  step-Quiet id posts_task t small s = post-Quiet id t.place t refl s
  step-Quiet id sleeps t small s = fall_asleep-Quiet id t.place t s
  step-Quiet id wakes t small s = woken-Quiet id t s
  step-Quiet id (times_out now) t small s = time_out-Quiet id t.place now t s
  step-Quiet id stops t small s =
      kept-Quiet id t (record t { timer = record t.timer { on = false } }) refl refl refl
        (omega arith) s
  step-Quiet id notifies_all t small s = woken-Quiet id t s

  run_all-Quiet :
      (id : ℕ) (es : List (Event Task)) (t : TickThread Task)
      → t.timer.next_id + length es < 2 ^ 32
      → Settled id t
      → posts_of id (run_all es t).1 ≤ pending id t.place
  run_all-Quiet id [] t small s = omega arith
  run_all-Quiet id (e ∷ es) t small s =
      let q = step-Quiet id e t (omega arith) s in
      let rest = run_all-Quiet id es (step e t).0 (omega (arith, q.ids)) q.settled in
      omega (arith, rest, q.fewer, posts_of-append id (step e t).1 (run_all es (step e t).0).1)

  -- `cancel` of an identifier that was given out, with no call about to put it into the map, in any
  -- state of the tick thread, and then any history of calls in their three steps, of steps of the
  -- thread and of the destructor: no callback of that identifier is posted, but for at most one, and
  -- that only where the thread had let the lock go with it in hand before `cancel`. The identifiers
  -- do not wrap round at 2 ^ 32.
  pub cancel_is_final :
      (es : List (Event Task)) (id : ℕ) (t : TickThread Task)
      → id < t.timer.next_id
      → All (λ s. s.id ≢ id) t.drawn
      → t.timer.next_id + length es < 2 ^ 32
      → posts_of id (run_all (cancels id ∷ es) t).1 ≤ pending id t.place
  unfolding step
  cancel_is_final es id t old undrawn small =
      run_all-Quiet id es (record t { timer = cancel id t.timer })
        (omega (arith, next_id-cancel id t.timer))
        (record { gone = cancel-IsGone id t.timer old; undrawn = undrawn })
