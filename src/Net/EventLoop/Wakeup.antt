-- ===== src/Net/EventLoop/Wakeup.antt =====
-- No task is left behind: one that waits has a wake-up on its way, and tasks run in order.
use high_performance_concurr.Base.{
  ◌<◌, ◌≡◌, refl, sym, ap, ◌∙◌, Bool, true, false, List, [], ◌∷◌, ◌++◌, append-nil, append_assoc,
  arith, ◌⊎◌, inl, inr, Bool-cases, ◌==◌,
}
use high_performance_concurr.Net.EventLoop.{
  Loop, Place, unstarted, polling, awake, dealing, ended, Event, begins, queues, wakes, adds_own,
  polls, swaps, ends, quits, queue_task, add_own, begin_loop, quit_loop, evfd_wakeup, poll_returns,
  swap_tasks, end_tasks, step, added, run_all,
}

module _ {Task : Type 0} where
  -- No task waits; or the descriptor is ready, or is about to be written, or the thread is awake and
  -- has still to take the tasks.
  abbrev pub Pending : Loop Task → Type 0
  Pending l = (l.task_funcs ≡ []) ⊎ ((0 < l.evfd) ⊎ ((0 < l.adding) ⊎ (l.place ≡ awake)))

  poll-Pending : (r : Bool) (p : Place) (l : Loop Task) → Pending l → Pending (poll_returns r p l)
  unfolding poll_returns
  poll-Pending r polling l h = inr (inr (inr refl))
  poll-Pending r awake l h = h
  poll-Pending r dealing l h = h
  poll-Pending r unstarted l h = h
  poll-Pending r ended l h = h

  swap-Pending : (p : Place) (l : Loop Task) → Pending l → Pending (swap_tasks p l).0
  unfolding swap_tasks
  swap-Pending awake l h = inl refl
  swap-Pending polling l h = h
  swap-Pending dealing l h = h
  swap-Pending unstarted l h = h
  swap-Pending ended l h = h

  end-Pending : (p : Place) (l : Loop Task) → p ≡ l.place → Pending l → Pending (end_tasks p l)
  unfolding end_tasks
  end-Pending dealing l e (inl none) = inl none
  end-Pending dealing l e (inr (inl ready)) = inr (inl ready)
  end-Pending dealing l e (inr (inr (inl adding))) = inr (inr (inl adding))
  end-Pending dealing l e (inr (inr (inr woken))) = cc
  end-Pending polling l e h = h
  end-Pending awake l e h = h
  end-Pending unstarted l e h = h
  end-Pending ended l e h = h

  begin-Pending : (p : Place) (l : Loop Task) → p ≡ l.place → Pending l → Pending (begin_loop p l)
  unfolding begin_loop
  begin-Pending unstarted l e (inl none) = inl none
  begin-Pending unstarted l e (inr (inl ready)) = inr (inl ready)
  begin-Pending unstarted l e (inr (inr (inl adding))) = inr (inr (inl adding))
  begin-Pending unstarted l e (inr (inr (inr woken))) = cc
  begin-Pending polling l e h = h
  begin-Pending awake l e h = h
  begin-Pending dealing l e h = h
  begin-Pending ended l e h = h

  own-Pending : (p : Place) (l : Loop Task) → Pending l → Pending (add_own p l)
  unfolding add_own
  own-Pending dealing l h = inr (inl (omega arith))
  own-Pending unstarted l h = h
  own-Pending polling l h = h
  own-Pending awake l h = h
  own-Pending ended l h = h

  quit-Pending : (own : Bool) (l : Loop Task) → Pending l → Pending (quit_loop own l)
  unfolding quit_loop
  quit-Pending false l h = inr (inr (inl (omega arith)))
  quit-Pending true l h = h

  wake-Pending : (l : Loop Task) → Pending l → Pending (evfd_wakeup l)
  unfolding evfd_wakeup
  wake-Pending l h = elim (Bool-cases (l.adding == 0)) [
    | inr some_adding ↦ rw some_adding (inr (inl (omega arith)))
    | inl none_adding ↦ elim h [
      | inl no_tasks ↦ inl no_tasks
      | inr (inl ready) ↦ rw none_adding (inr (inl ready))
      | inr (inr (inl adding)) ↦ absurd (ground arith)
      | inr (inr (inr woken)) ↦ inr (inr (inr woken))
    ]
  ]

  step-Pending : (e : Event Task) (l : Loop Task) → Pending l → Pending (step e l).0
  unfolding step queue_task
  step-Pending (queues t) l h = inr (inr (inl (omega arith)))
  step-Pending wakes l h = wake-Pending l h
  step-Pending (polls r) l h = poll-Pending r l.place l h
  step-Pending swaps l h = swap-Pending l.place l h
  step-Pending ends l h = end-Pending l.place l refl h
  step-Pending begins l h = begin-Pending l.place l refl h
  step-Pending adds_own l h = own-Pending l.place l h
  step-Pending (quits own) l h = quit-Pending own l h

  -- In any history of a loop that starts with no task, or with some and a wake-up pending, a task
  -- waits only while a wake-up is pending: the event descriptor is ready, a call of `add_task` is
  -- about to make it so, or the thread is behind `poll` and has still to take the tasks.
  pub waits_with_wakeup :
      (es : List (Event Task)) (l : Loop Task) → Pending l → Pending (run_all es l).0
  waits_with_wakeup [] l h = h
  waits_with_wakeup (e ∷ es) l h = waits_with_wakeup es (step e l).0 (step-Pending e l h)

  -- What a history adds.
  abbrev pub all_added : List (Event Task) → List Task
  all_added [] = []
  all_added (e ∷ es) = added e ++ all_added es

  -- Tasks run in order, and those that a step adds go behind the others.
  abbrev pub InOrder : Loop Task → List Task → Loop Task × List Task → Type 0
  InOrder l more r = r.1 ++ r.0.task_funcs ≡ l.task_funcs ++ more

  poll-InOrder : (r : Bool) (p : Place) (l : Loop Task) → InOrder l [] (poll_returns r p l, [])
  unfolding poll_returns
  poll-InOrder r polling l = sym (append-nil l.task_funcs)
  poll-InOrder r awake l = sym (append-nil l.task_funcs)
  poll-InOrder r unstarted l = sym (append-nil l.task_funcs)
  poll-InOrder r ended l = sym (append-nil l.task_funcs)
  poll-InOrder r dealing l = sym (append-nil l.task_funcs)

  swap-InOrder : (p : Place) (l : Loop Task) → InOrder l [] (swap_tasks p l)
  unfolding swap_tasks
  swap-InOrder awake l = refl
  swap-InOrder polling l = sym (append-nil l.task_funcs)
  swap-InOrder unstarted l = sym (append-nil l.task_funcs)
  swap-InOrder ended l = sym (append-nil l.task_funcs)
  swap-InOrder dealing l = sym (append-nil l.task_funcs)

  end-InOrder : (p : Place) (l : Loop Task) → InOrder l [] (end_tasks p l, [])
  unfolding end_tasks
  end-InOrder unstarted l = sym (append-nil l.task_funcs)
  end-InOrder ended l = sym (append-nil l.task_funcs)
  end-InOrder dealing l = sym (append-nil l.task_funcs)
  end-InOrder polling l = sym (append-nil l.task_funcs)
  end-InOrder awake l = sym (append-nil l.task_funcs)

  begin-InOrder : (p : Place) (l : Loop Task) → InOrder l [] (begin_loop p l, [])
  unfolding begin_loop
  begin-InOrder unstarted l = sym (append-nil l.task_funcs)
  begin-InOrder polling l = sym (append-nil l.task_funcs)
  begin-InOrder awake l = sym (append-nil l.task_funcs)
  begin-InOrder dealing l = sym (append-nil l.task_funcs)
  begin-InOrder ended l = sym (append-nil l.task_funcs)

  own-InOrder : (p : Place) (l : Loop Task) → InOrder l [] (add_own p l, [])
  unfolding add_own
  own-InOrder unstarted l = sym (append-nil l.task_funcs)
  own-InOrder polling l = sym (append-nil l.task_funcs)
  own-InOrder awake l = sym (append-nil l.task_funcs)
  own-InOrder dealing l = sym (append-nil l.task_funcs)
  own-InOrder ended l = sym (append-nil l.task_funcs)

  step-InOrder : (e : Event Task) (l : Loop Task) → InOrder l (added e) (step e l)
  unfolding step queue_task evfd_wakeup quit_loop
  step-InOrder (queues t) l = refl
  step-InOrder wakes l = sym (append-nil l.task_funcs)
  step-InOrder (polls r) l = poll-InOrder r l.place l
  step-InOrder swaps l = swap-InOrder l.place l
  step-InOrder ends l = end-InOrder l.place l
  step-InOrder begins l = begin-InOrder l.place l
  step-InOrder adds_own l = own-InOrder l.place l
  step-InOrder (quits own) l = sym (append-nil l.task_funcs)

  -- Over any history, the tasks that ran, followed by those that wait, are those that waited first,
  -- followed by those that were added: each runs at most once, in the order of the queue.
  pub tasks_in_order :
      (es : List (Event Task)) (l : Loop Task)
      → (run_all es l).1 ++ (run_all es l).0.task_funcs ≡ l.task_funcs ++ all_added es
  tasks_in_order [] l = sym (append-nil l.task_funcs)
  tasks_in_order (e ∷ es) l =
      let l1 : Loop Task = (step e l).0 in
      let out : List Task = (step e l).1 in
      append_assoc out (run_all es l1).1 (run_all es l1).0.task_funcs
      ∙ ap (λ xs. out ++ xs) (tasks_in_order es l1)
      ∙ sym (append_assoc out l1.task_funcs (all_added es))
      ∙ ap (λ xs. xs ++ all_added es) (step-InOrder e l)
      ∙ append_assoc l.task_funcs (added e) (all_added es)
