-- ===== src/Threadpool/Idle.antt =====
-- `tp_idl_tnum` counts the threads that run no task.
use high_performance_concurr.Base.{
  Option, none, ◌==◌, ℕ, ◌+◌, ◌≤◌, ◌≡◌, refl, Bool, true, false, some, List, [], ◌∷◌, arith, inl,
  inr, Option-cases, Bool-cases, get_elem?, set, length, length-set, length-replicate, ok,
}
use high_performance_concurr.Threadpool.Count.{
  total, total-set, total-le, total_map, total-replicate, length_map,
}
use high_performance_concurr.Threadpool.Start.{fresh, make-fresh}
use high_performance_concurr.Threadpool.Places.{asleep_at-elem}
use high_performance_concurr.Threadpool.{
  notifies_one, notifies_all, wakes, dozing, asleep, is_locked, enqueue, notify_one, asleep_at,
  is_asleep, any, woken, Threadpool, Worker, looping, waiting, took, running, finished, ended,
  Event, tests, queues, works, stops, wake, work, step, run_all, make, max_num,
}

module _ {Task : Type 0} where
  -- A worker that the counter does not count: it is between the two changes of it.
  abbrev pub busy : Worker Task → ℕ
  busy looping = 0
  busy waiting = 0
  busy dozing = 0
  busy asleep = 0
  busy (took t) = 0
  busy (running t) = 1
  busy finished = 1
  busy ended = 0

  abbrev pub busy_all : List (Worker Task) → ℕ
  busy_all ws = total busy ws

  busy-le : (w : Worker Task) → busy w ≤ 1
  busy-le looping = omega arith
  busy-le waiting = omega arith
  busy-le dozing = omega arith
  busy-le asleep = omega arith
  busy-le (took t) = omega arith
  busy-le (running t) = omega arith
  busy-le finished = omega arith
  busy-le ended = omega arith

  -- The counter is the number of threads that are not busy, of which there are at most 64.
  pub record IsCounted (idl : ℕ) (ws : List (Worker Task)) : Type 0 where
    pub count : idl + busy_all ws ≡ length ws
    pub small : length ws ≤ max_num

  moved-IsCounted :
      (idl idl' i : ℕ) (ws : List (Worker Task)) (w v : Worker Task)
      → get_elem? ws i ≡ some w
      → IsCounted idl ws
      → idl' + busy v ≡ idl + busy w
      → IsCounted idl' (set ws i v)
  moved-IsCounted idl idl' i ws w v there h e = record {
    count = omega (arith, total-set busy ws i w v there, length-set ws i v, h.count);
    small = omega (arith, length-set ws i v, h.small);
  }

  abbrev pub PoolIsCounted : Threadpool Task → Type 0
  PoolIsCounted p = IsCounted p.idl_tnum p.workers

  wake-IsCounted :
      (i : ℕ) (run : Bool) (ts : List Task) (p : Threadpool Task)
      → get_elem? p.workers i ≡ some waiting
      → PoolIsCounted p
      → PoolIsCounted (wake i run ts p).0
  unfolding wake
  wake-IsCounted i true [] p there h =
      moved-IsCounted p.idl_tnum p.idl_tnum i p.workers waiting dozing there h refl
  wake-IsCounted i false [] p there h =
      moved-IsCounted p.idl_tnum p.idl_tnum i p.workers waiting ended there h refl
  wake-IsCounted i true (t ∷ ts) p there h =
      moved-IsCounted p.idl_tnum p.idl_tnum i p.workers waiting (took t) there h refl
  wake-IsCounted i false (t ∷ ts) p there h =
      moved-IsCounted p.idl_tnum p.idl_tnum i p.workers waiting (took t) there h refl

  work-IsCounted :
      (i : ℕ) (w : Worker Task) (p : Threadpool Task)
      → get_elem? p.workers i ≡ some w
      → PoolIsCounted p
      → PoolIsCounted (work i w p).0
  unfolding work
  work-IsCounted i looping p there h = elim (Bool-cases p.run) [
    | inl on ↦
        simp on (moved-IsCounted p.idl_tnum p.idl_tnum i p.workers looping waiting there h refl)
    | inr off ↦
        simp off (moved-IsCounted p.idl_tnum p.idl_tnum i p.workers looping ended there h refl)
  ]
  work-IsCounted i waiting p there h = elim (Bool-cases (is_locked p)) [
    | inl held ↦ simp held h
    | inr free ↦ simp free (wake-IsCounted i p.run p.tasks p there h)
  ]
  work-IsCounted i dozing p there h =
      moved-IsCounted p.idl_tnum p.idl_tnum i p.workers dozing asleep there h refl
  work-IsCounted i asleep p there h = h
  work-IsCounted i (took t) p there h =
      let more = total-set busy p.workers i (took t) (running t) there in
      let most = total-le busy busy-le (set p.workers i (running t)) in
      let size = length-set p.workers i (running t) in
      moved-IsCounted p.idl_tnum _ i p.workers (took t) (running t) there h
        (omega (arith, more, most, size, h.count, h.small))
  work-IsCounted i (running t) p there h =
      moved-IsCounted p.idl_tnum p.idl_tnum i p.workers (running t) finished there h refl
  work-IsCounted i finished p there h =
      let less = total-set busy p.workers i finished looping there in
      moved-IsCounted p.idl_tnum _ i p.workers finished looping there h
        (omega (arith, less, h.count, h.small))
  work-IsCounted i ended p there h = h

  enqueue-IsCounted :
      (i : ℕ) (o : Option Task) (p : Threadpool Task)
      → PoolIsCounted p
      → PoolIsCounted (enqueue i o p).0
  unfolding enqueue
  enqueue-IsCounted i none p h = h
  enqueue-IsCounted i (some t) p h = h

  -- A worker that sleeps is set to wait.
  woken-IsCounted :
      (i : ℕ) (p : Threadpool Task)
      → asleep_at p.workers i ≡ true
      → PoolIsCounted p
      → IsCounted p.idl_tnum (set p.workers i waiting)
  woken-IsCounted i p sleeps h =
      moved-IsCounted p.idl_tnum p.idl_tnum i p.workers asleep waiting
        (asleep_at-elem p.workers i sleeps) h refl

  notify_one-IsCounted :
      (i : ℕ) (b : Bool) (p : Threadpool Task)
      → asleep_at p.workers i ≡ b
      → PoolIsCounted p
      → PoolIsCounted (notify_one i b p)
  unfolding notify_one
  notify_one-IsCounted i true p e h = woken-IsCounted i p e h
  notify_one-IsCounted i false p e h = elim (Bool-cases (any is_asleep p.workers)) [
    | inl others ↦ simp others h
    | inr nobody ↦ simp nobody h
  ]

  busy-woken : (w : Worker Task) → busy (woken w) ≡ busy w
  busy-woken looping = refl
  busy-woken waiting = refl
  busy-woken dozing = refl
  busy-woken asleep = refl
  busy-woken (took t) = refl
  busy-woken (running t) = refl
  busy-woken finished = refl
  busy-woken ended = refl

  step-IsCounted :
      (e : Event Task) (p : Threadpool Task) → PoolIsCounted p → PoolIsCounted (step e p).0
  unfolding step
  step-IsCounted (tests t) p h = elim (Bool-cases p.run) [
    | inl on ↦ simp on h
    | inr off ↦ simp off h
  ]
  step-IsCounted (queues i) p h = elim (Bool-cases (is_locked p)) [
    | inl held ↦ simp held h
    | inr free ↦ simp free (enqueue-IsCounted i (get_elem? p.posting i) p h)
  ]
  step-IsCounted (notifies_one i) p h = elim (Bool-cases (p.notifies == 0)) [
    | inl no_call ↦ simp no_call h
    | inr call ↦ simp call (notify_one-IsCounted i (asleep_at p.workers i) p refl h)
  ]
  step-IsCounted (works i) p h = elim (Option-cases (get_elem? p.workers i)) [
    | inl nothing ↦ rw (step, nothing) h
    | inr (w, there) ↦ rw (step, there) (work-IsCounted i w p there h)
  ]
  step-IsCounted (wakes i) p h = elim (Bool-cases (asleep_at p.workers i)) [
    | inl sleeps ↦ simp sleeps (woken-IsCounted i p sleeps h)
    | inr awake ↦ simp awake h
  ]
  step-IsCounted stops p h = h
  step-IsCounted notifies_all p h = elim (Bool-cases p.run) [
    | inl on ↦ simp on h
    | inr off ↦ simp off (record {
      count =
          omega
            (arith, total_map busy woken busy-woken p.workers, length_map woken p.workers, h.count);
      small = omega (arith, length_map woken p.workers, h.small);
    })
  ]

  run-IsCounted :
      (es : List (Event Task)) (p : Threadpool Task)
      → PoolIsCounted p
      → PoolIsCounted (run_all es p).0
  run-IsCounted [] p h = h
  run-IsCounted (e ∷ es) p h = run-IsCounted es (step e p).0 (step-IsCounted e p h)

  -- The constructor accepts a size of at most 64, and makes that many threads. After any history of
  -- posts, steps of workers and the stop, the counter of idle threads and the number of threads that
  -- run a task make up the number of threads, which is at most 64.
  pub idle_count :
      (size : ℕ) (es : List (Event Task))
      → size ≤ max_num
      → (p : Threadpool Task) × (make size ≡ ok p)
        × (length p.workers ≡ size)
        × IsCounted (run_all es p).0.idl_tnum (run_all es p).0.workers
  idle_count size es small =
      let many = length-replicate size Worker.looping in
      let start : PoolIsCounted (fresh Task size) = record {
        count = omega (arith, total-replicate busy size Worker.looping refl, many);
        small = omega (arith, many);
      } in
      (fresh Task size, make-fresh Task size small, many, run-IsCounted es (fresh Task size) start)
