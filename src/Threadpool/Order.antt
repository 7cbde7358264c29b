-- ===== src/Threadpool/Order.antt =====
-- Tasks are taken in the order in which they are queued, each once.
use high_performance_concurr.Base.{
  Option, none, some, ◌==◌, arith, ℕ, ◌≡◌, refl, sym, ap, ◌∙◌, Bool, true, false, List, [], ◌∷◌,
  ◌++◌, append_assoc, append-nil, inl, inr, Option-cases, Bool-cases, get_elem?,
}
use high_performance_concurr.Threadpool.{
  notifies_one, notifies_all, wakes, dozing, asleep, is_locked, enqueue, notify_one, asleep_at,
  Threadpool, Worker, looping, waiting, took, running, finished, ended, Event, tests, queues, works,
  stops, Action, queued, taken, ran, threw, silent, wake, work, step, run_all,
}

module _ {Task : Type 0} where
  abbrev pub queued_by : Action Task → List Task
  queued_by (queued t) = t ∷ []
  queued_by (taken t) = []
  queued_by (ran t) = []
  queued_by (threw t) = []
  queued_by silent = []

  abbrev pub taken_by : Action Task → List Task
  taken_by (queued t) = []
  taken_by (taken t) = t ∷ []
  taken_by (ran t) = []
  taken_by (threw t) = []
  taken_by silent = []

  -- The tasks that a history queues, and those that its workers take.
  abbrev pub all_queued : List (Action Task) → List Task
  all_queued [] = []
  all_queued (a ∷ acts) = queued_by a ++ all_queued acts

  abbrev pub all_taken : List (Action Task) → List Task
  all_taken [] = []
  all_taken (a ∷ acts) = taken_by a ++ all_taken acts

  -- A step takes from the front of the queue and adds behind its end.
  abbrev pub Balanced : Threadpool Task → Threadpool Task × Action Task → Type 0
  Balanced p (p', a) = taken_by a ++ p'.tasks ≡ p.tasks ++ queued_by a

  wake-Balanced :
      (i : ℕ) (run : Bool) (ts : List Task) (p : Threadpool Task)
      → p.tasks ≡ ts
      → Balanced p (wake i run ts p)
  unfolding wake
  wake-Balanced i true [] p e = sym (append-nil p.tasks)
  wake-Balanced i false [] p e = sym (append-nil p.tasks)
  wake-Balanced i true (t ∷ ts) p e = sym e ∙ sym (append-nil p.tasks)
  wake-Balanced i false (t ∷ ts) p e = sym e ∙ sym (append-nil p.tasks)

  work-Balanced : (i : ℕ) (w : Worker Task) (p : Threadpool Task) → Balanced p (work i w p)
  unfolding work
  work-Balanced i looping p = sym (append-nil p.tasks)
  work-Balanced i waiting p = elim (Bool-cases (is_locked p)) [
    | inl held ↦ simp held (sym (append-nil p.tasks))
    | inr free ↦ simp free (wake-Balanced i p.run p.tasks p refl)
  ]
  work-Balanced i dozing p = sym (append-nil p.tasks)
  work-Balanced i asleep p = sym (append-nil p.tasks)
  work-Balanced i (took t) p = sym (append-nil p.tasks)
  work-Balanced i (running t) p = sym (append-nil p.tasks)
  work-Balanced i finished p = sym (append-nil p.tasks)
  work-Balanced i ended p = sym (append-nil p.tasks)

  enqueue-Balanced : (i : ℕ) (o : Option Task) (p : Threadpool Task) → Balanced p (enqueue i o p)
  unfolding enqueue
  enqueue-Balanced i none p = sym (append-nil p.tasks)
  enqueue-Balanced i (some t) p = refl

  notify_one-tasks : (i : ℕ) (b : Bool) (p : Threadpool Task) → (notify_one i b p).tasks ≡ p.tasks
  unfolding notify_one
  notify_one-tasks i true p = refl
  notify_one-tasks i false p = ground arith

  step-Balanced : (e : Event Task) (p : Threadpool Task) → Balanced p (step e p)
  unfolding step
  step-Balanced (tests t) p = elim (Bool-cases p.run) [
    | inl on ↦ simp on (sym (append-nil p.tasks))
    | inr off ↦ simp off (sym (append-nil p.tasks))
  ]
  step-Balanced (queues i) p = elim (Bool-cases (is_locked p)) [
    | inl held ↦ simp held (sym (append-nil p.tasks))
    | inr free ↦ simp free (enqueue-Balanced i (get_elem? p.posting i) p)
  ]
  step-Balanced (notifies_one i) p = elim (Bool-cases (p.notifies == 0)) [
    | inl no_call ↦ simp no_call (sym (append-nil p.tasks))
    | inr call ↦ simp call (notify_one-tasks i (asleep_at p.workers i) p ∙ sym (append-nil p.tasks))
  ]
  step-Balanced (works i) p = elim (Option-cases (get_elem? p.workers i)) [
    | inl nothing ↦ rw (step, nothing) (sym (append-nil p.tasks))
    | inr (w, there) ↦ rw (step, there) (work-Balanced i w p)
  ]
  step-Balanced (wakes i) p = elim (Bool-cases (asleep_at p.workers i)) [
    | inl sleeps ↦ simp sleeps (sym (append-nil p.tasks))
    | inr awake ↦ simp awake (sym (append-nil p.tasks))
  ]
  step-Balanced stops p = sym (append-nil p.tasks)
  step-Balanced notifies_all p = elim (Bool-cases p.run) [
    | inl on ↦ simp on (sym (append-nil p.tasks))
    | inr off ↦ simp off (sym (append-nil p.tasks))
  ]

  -- Over any history of posts, workers' steps and the stop, in any order, the tasks that workers took
  -- and then those that still wait are those that waited first and then those that were queued: each
  -- is taken at most once, in the order of the queue, and none is lost while the pool exists.
  pub taken_in_order :
      (es : List (Event Task)) (p : Threadpool Task)
      → all_taken (run_all es p).1 ++ (run_all es p).0.tasks
        ≡ p.tasks ++ all_queued (run_all es p).1
  taken_in_order [] p = sym (append-nil p.tasks)
  taken_in_order (e ∷ es) p =
      let p' : Threadpool Task = (step e p).0 in
      let a : Action Task = (step e p).1 in
      append_assoc (taken_by a) (all_taken (run_all es p').1) (run_all es p').0.tasks
      ∙ ap (λ xs. taken_by a ++ xs) (taken_in_order es p')
      ∙ sym (append_assoc (taken_by a) p'.tasks (all_queued (run_all es p').1))
      ∙ ap (λ xs. xs ++ all_queued (run_all es p').1) (step-Balanced e p)
      ∙ append_assoc p.tasks (queued_by a) (all_queued (run_all es p').1)
