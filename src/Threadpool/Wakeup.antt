-- ===== src/Threadpool/Wakeup.antt =====
-- While the pool runs, no queued task waits for workers that all sleep.
use high_performance_concurr.Base.{
  ℕ, ◌≤◌, ◌<◌, ◌≡◌, ◌≢◌, refl, subst, sym, ◌∙◌, Bool, true, false, List, [], ◌∷◌, arith, ◌⊎◌, inl,
  inr, Option-cases, Bool-cases, get_elem?, length, length-replicate, ok, ◌==◌,
}
use high_performance_concurr.Threadpool.{
  Threadpool, Worker, looping, Event, tests, queues, notifies_one, works, wakes, stops,
  notifies_all, wake, work, enqueue, notify_one, is_asleep, is_dozing, is_locked, asleep_at, step,
  run_all, make, max_num,
}
use high_performance_concurr.Threadpool.Count.{total, total-replicate}
use high_performance_concurr.Threadpool.Start.{fresh, make_only}
use high_performance_concurr.Threadpool.Places.{one, any-total}
use high_performance_concurr.Threadpool.Awake.{
  PoolIsAwake, work-IsAwake, enqueue-IsAwake, notify_one-IsAwake, woken-IsAwake,
}

module _ {Task : Type 0} where
  step-IsAwake :
      (e : Event Task) (p : Threadpool Task)
      → p.run ≡ true
      → PoolIsAwake p
      → ((step e p).0.run ≡ false) ⊎ PoolIsAwake (step e p).0
  unfolding step
  step-IsAwake (tests t) p on h = simp on (inr h)
  step-IsAwake (queues i) p on h = elim (Bool-cases (is_locked p)) [
    | inl held ↦ simp held (inr h)
    | inr free ↦
        let quiet = any-total is_dozing p.workers free in
        simp free (inr (enqueue-IsAwake i (get_elem? p.posting i) p quiet h))
  ]
  step-IsAwake (notifies_one i) p on h = elim (Bool-cases (p.notifies == 0)) [
    | inl no_call ↦ simp no_call (inr h)
    | inr call ↦ simp call (inr (notify_one-IsAwake i (asleep_at p.workers i) p refl h))
  ]
  step-IsAwake (works i) p on h = elim (Option-cases (get_elem? p.workers i)) [
    | inl nothing ↦ rw (step, nothing) (inr h)
    | inr (w, there) ↦ rw (step, there) (inr (work-IsAwake i w p on there h))
  ]
  step-IsAwake (wakes i) p on h = elim (Bool-cases (asleep_at p.workers i)) [
    | inl sleeps ↦ simp sleeps (inr (woken-IsAwake p.notifies i p sleeps h))
    | inr awake ↦ simp awake (inr h)
  ]
  step-IsAwake stops p on h = inl refl
  step-IsAwake notifies_all p on h = simp on (inr h)

  -- Nothing sets `tp_run` again.
  wake-run :
      (i : ℕ) (b : Bool) (ts : List Task) (p : Threadpool Task) → (wake i b ts p).0.run ≡ p.run
  unfolding wake
  wake-run i true [] p = refl
  wake-run i false [] p = refl
  wake-run i true (t ∷ ts) p = refl
  wake-run i false (t ∷ ts) p = refl

  work-run : (i : ℕ) (w : Worker Task) (p : Threadpool Task) → (work i w p).0.run ≡ p.run
  unfolding work
  work-run i w p = ground (arith, wake-run i p.run p.tasks p)

  pub step-run : (e : Event Task) (p : Threadpool Task) → p.run ≡ false → (step e p).0.run ≡ false
  unfolding step enqueue notify_one
  step-run (tests t) p off = ground arith
  step-run (queues i) p off = ground arith
  step-run (notifies_one i) p off = ground arith
  step-run (works i) p off = elim (Option-cases (get_elem? p.workers i)) [
    | inl nothing ↦ rw (step, nothing) off
    | inr (w, there) ↦ rw (step, there) (work-run i w p ∙ off)
  ]
  step-run (wakes i) p off = ground arith
  step-run stops p off = refl
  step-run notifies_all p off = simp off refl

  run-IsAwake :
      (es : List (Event Task)) (p : Threadpool Task)
      → (p.run ≡ false) ⊎ PoolIsAwake p
      → ((run_all es p).0.run ≡ false) ⊎ PoolIsAwake (run_all es p).0
  run-IsAwake [] p h = h
  run-IsAwake (e ∷ es) p (inl off) = run-IsAwake es (step e p).0 (inl (step-run e p off))
  run-IsAwake (e ∷ es) p (inr h) = elim (Bool-cases p.run) [
    | inl on ↦ run-IsAwake es (step e p).0 (step-IsAwake e p on h)
    | inr off ↦ run-IsAwake es (step e p).0 (inl (step-run e p off))
  ]

  fresh-IsAwake : (size : ℕ) → 0 < size → PoolIsAwake (fresh Task size)
  fresh-IsAwake size some_worker =
      let many = length-replicate {A = Worker Task} size looping in
      let asleep_none = total-replicate {A = Worker Task} (one is_asleep) size looping refl in
      let dozing_none = total-replicate {A = Worker Task} (one is_dozing) size looping refl in
      record {
        some_worker = omega (arith, many, some_worker);
        none_waits = inl dozing_none;
        attended = inl refl;
      }

  -- A pool of at least one and at most 64 threads, after any history and unless it was stopped:
  -- where a task waits in the queue, a call of `notify_one` is on its way or a thread does not sleep.
  pub task_is_attended :
      (size : ℕ) (es : List (Event Task)) (p : Threadpool Task)
      → 0 < size
      → size ≤ max_num
      → make size ≡ ok p
      → (run_all es p).0.run ≡ true
      → (run_all es p).0.tasks ≢ []
      → (0 < (run_all es p).0.notifies)
        ⊎ (total (one is_asleep) (run_all es p).0.workers < length (run_all es p).0.workers)
  task_is_attended size es p some_worker small made on waits =
      let start : PoolIsAwake p =
        subst PoolIsAwake (sym (make_only Task size p small made))
          (fresh-IsAwake size some_worker) in
      elim (run-IsAwake es p (inr start)) [
        | inl off ↦ cc
        | inr h ↦ elim h.attended [ inl nothing ↦ absurd (waits nothing) | inr a ↦ a ]
      ]
