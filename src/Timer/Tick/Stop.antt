-- ===== src/Timer/Tick/Stop.antt =====
-- The destructor sets `tm_running` and notifies all without the lock, so a tick thread that is about to
-- sleep misses both.
use high_performance_concurr.Base.{
  ℕ, ◌≡◌, refl, ◌∙◌, Option, none, some, List, [], ◌∷◌, All, get_elem?,
}
use high_performance_concurr.Timer.Schedule.{Node, round}
use high_performance_concurr.Timer.Tick.{
  locking, asleep, TickThread, Event, draws, enters, pushes, cancels, tests, rounds, posts_task,
  draw, enter, post, sleeps, wakes, times_out, stops, notifies_all, woken, test, next_place,
  take_round, fall_asleep, time_out, step, run_all,
}

module _ {Task : Type 0} where
  -- An event that neither pushes a node, nor wakes the thread without a notification, nor repeats the
  -- destructor's call.
  abbrev pub Undisturbed : Event Task → Type 0
  Undisturbed (draws s) = Unit {0}
  Undisturbed (enters i) = Unit {0}
  Undisturbed (pushes i) = ⊥
  Undisturbed (cancels id) = Unit {0}
  Undisturbed tests = Unit {0}
  Undisturbed (rounds now now') = Unit {0}
  Undisturbed posts_task = Unit {0}
  Undisturbed sleeps = Unit {0}
  Undisturbed wakes = ⊥
  Undisturbed (times_out now) = Unit {0}
  Undisturbed stops = Unit {0}
  Undisturbed notifies_all = ⊥

  enter-place :
      (i : ℕ) (o : Option (Node Task)) (t : TickThread Task) → (enter i o t).place ≡ t.place
  unfolding enter
  enter-place i none t = refl
  enter-place i (some s) t = refl

  still_asleep :
      (e : Event Task) (t : TickThread Task)
      → Undisturbed e
      → t.place ≡ asleep none
      → (step e t).0.place ≡ asleep none
  unfolding step draw post test take_round fall_asleep time_out
  still_asleep (draws s) t u h = h
  still_asleep (enters i) t u h = enter-place i (get_elem? t.drawn i) t ∙ h
  still_asleep (pushes i) t u h = elim u [ ]
  still_asleep (cancels id) t u h = h
  still_asleep tests t u h = rw (h, test) refl
  still_asleep (rounds now now') t u h = rw (h, take_round) refl
  still_asleep posts_task t u h = rw (h, post) refl
  still_asleep sleeps t u h = rw (h, fall_asleep) refl
  still_asleep wakes t u h = elim u [ ]
  still_asleep (times_out now) t u h = rw (h, time_out) refl
  still_asleep stops t u h = h
  still_asleep notifies_all t u h = elim u [ ]

  sleeps_on :
      (es : List (Event Task)) (t : TickThread Task)
      → All Undisturbed es
      → t.place ≡ asleep none
      → (run_all es t).0.place ≡ asleep none
  sleeps_on [] t u h = h
  sleeps_on (e ∷ es) t u h = sleeps_on es (step e t).0 u.1 (still_asleep e t u.0 h)

  -- A tick thread that has found `tm_running` true and has not the lock yet when the destructor sets
  -- it false and notifies all, with no timer in the queue, sleeps after that, with no time to wake
  -- up, and sleeps on through any history without a wake-up from nowhere, where no node is pushed.
  -- The destructor, which joins it, never returns.
  pub stop_is_missed :
      (es : List (Event Task)) (now now' : ℕ) (t : TickThread Task)
      → t.place ≡ locking
      → t.timer.queue ≡ []
      → All Undisturbed es
      → (run_all (stops ∷ notifies_all ∷ rounds now now' ∷ sleeps ∷ es) t).0.place ≡ asleep none
  unfolding step take_round fall_asleep woken next_place round
  stop_is_missed es now now' t at empty u =
      sleeps_on es _ u
        (rw (step, at, woken, take_round, empty, round, next_place, fall_asleep) refl)
