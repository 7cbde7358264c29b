-- ===== src/Threadpool/Awake.antt =====
-- A pool in which no task waits for workers that all sleep, and the steps of workers and posters on it.
use high_performance_concurr.Base.{
  ℕ, ◌-◌, ◌<◌, ◌≡◌, refl, Bool, true, false, Option, none, some, List, [], ◌∷◌, arith, ◌⊎◌, inl,
  inr, Bool-cases, get_elem?, set, length, length-set,
}
use high_performance_concurr.Threadpool.{
  Threadpool, Worker, looping, waiting, dozing, asleep, took, running, finished, ended, wake, work,
  enqueue, notify_one, is_asleep, is_dozing, any, is_locked, asleep_at,
}
use high_performance_concurr.Threadpool.Count.{total, total-set, total_room, total_part}
use high_performance_concurr.Threadpool.Places.{one, one-le, any-total, asleep_at-elem}

module _ {Task : Type 0} where
  -- A worker that sleeps does so for want of a task.
  abbrev pub Attended : List Task → ℕ → List (Worker Task) → Type 0
  Attended ts notifies ws = (ts ≡ []) ⊎ ((0 < notifies) ⊎ (total (one is_asleep) ws < length ws))

  pub record IsAwake (ts : List Task) (notifies : ℕ) (ws : List (Worker Task)) : Type 0 where
    pub some_worker : 0 < length ws
    pub none_waits : (total (one is_dozing) ws ≡ 0) ⊎ (ts ≡ [])
    pub attended : Attended ts notifies ws

  abbrev pub PoolIsAwake : Threadpool Task → Type 0
  PoolIsAwake p = IsAwake p.tasks p.notifies p.workers

  -- A worker goes from one place to another, where it neither dozes nor sleeps.
  moved-IsAwake :
      (ts ts' : List Task) (n n' i : ℕ) (ws : List (Worker Task)) (w v : Worker Task)
      → get_elem? ws i ≡ some w
      → IsAwake ts n ws
      → ((total (one is_dozing) ws ≡ 0) ⊎ (ts' ≡ []))
      → one is_asleep v ≡ 0
      → one is_dozing v ≡ 0
      → IsAwake ts' n' (set ws i v)
  moved-IsAwake ts ts' n n' i ws w v there h quiet awake sharp =
      let room = total_room (one is_asleep) (one-le is_asleep) ws i w there in
      let asleep_now = total-set (one is_asleep) ws i w v there in
      let dozing_now = total-set (one is_dozing) ws i w v there in
      let same = length-set ws i v in
      record {
        some_worker = omega (arith, same, h.some_worker);
        none_waits = elim quiet [
          | inl q ↦ inl (omega (arith, dozing_now, q, sharp))
          | inr q ↦ inr q
        ];
        attended = inr (inr (omega (arith, room, asleep_now, same, awake, one-le is_asleep w)));
      }

  wake-IsAwake :
      (i : ℕ) (ts : List Task) (p : Threadpool Task)
      → p.tasks ≡ ts
      → get_elem? p.workers i ≡ some waiting
      → total (one is_dozing) p.workers ≡ 0
      → PoolIsAwake p
      → PoolIsAwake (wake i true ts p).0
  unfolding wake
  wake-IsAwake i [] p e there quiet h = record {
    some_worker = omega (arith, length-set p.workers i Worker.dozing, h.some_worker);
    none_waits = inr e;
    attended = inl e;
  }
  wake-IsAwake i (t ∷ ts) p e there quiet h =
      moved-IsAwake p.tasks ts p.notifies p.notifies i p.workers waiting (took t) there h
        (inl quiet) refl refl

  pub work-IsAwake :
      (i : ℕ) (w : Worker Task) (p : Threadpool Task)
      → p.run ≡ true
      → get_elem? p.workers i ≡ some w
      → PoolIsAwake p
      → PoolIsAwake (work i w p).0
  unfolding work
  work-IsAwake i looping p on there h = simp on (
      moved-IsAwake p.tasks p.tasks p.notifies p.notifies i p.workers looping waiting there h
        h.none_waits refl refl)
  work-IsAwake i waiting p on there h = elim (Bool-cases (is_locked p)) [
    | inl held ↦ simp held h
    | inr free ↦
        simp (free, on) (wake-IsAwake i p.tasks p refl there (any-total is_dozing p.workers free) h)
  ]
  work-IsAwake i dozing p on there h =
      let one_dozes = total_part (one is_dozing) p.workers i dozing there in
      let no_task : p.tasks ≡ [] = elim h.none_waits [
        | inl nobody ↦ absurd (omega (arith, nobody, one_dozes))
        | inr e ↦ e
      ] in
      record {
        some_worker = omega (arith, length-set p.workers i Worker.asleep, h.some_worker);
        none_waits = inr no_task;
        attended = inl no_task;
      }
  work-IsAwake i asleep p on there h = h
  work-IsAwake i (took t) p on there h =
      moved-IsAwake p.tasks p.tasks p.notifies p.notifies i p.workers (took t) (running t) there h
        h.none_waits refl refl
  work-IsAwake i (running t) p on there h =
      moved-IsAwake p.tasks p.tasks p.notifies p.notifies i p.workers (running t) finished there h
        h.none_waits refl refl
  work-IsAwake i finished p on there h =
      moved-IsAwake p.tasks p.tasks p.notifies p.notifies i p.workers finished looping there h
        h.none_waits refl refl
  work-IsAwake i ended p on there h = h

  pub enqueue-IsAwake :
      (i : ℕ) (o : Option Task) (p : Threadpool Task)
      → total (one is_dozing) p.workers ≡ 0
      → PoolIsAwake p
      → PoolIsAwake (enqueue i o p).0
  unfolding enqueue
  enqueue-IsAwake i none p quiet h = h
  enqueue-IsAwake i (some t) p quiet h = record {
    some_worker = h.some_worker;
    none_waits = inl quiet;
    attended = inr (inl (omega arith));
  }

  -- A worker that sleeps is woken.
  pub woken-IsAwake :
      (n i : ℕ) (p : Threadpool Task)
      → asleep_at p.workers i ≡ true
      → PoolIsAwake p
      → IsAwake p.tasks n (set p.workers i waiting)
  woken-IsAwake n i p sleeps h =
      moved-IsAwake p.tasks p.tasks p.notifies n i p.workers asleep waiting
        (asleep_at-elem p.workers i sleeps) h h.none_waits refl refl

  pub notify_one-IsAwake :
      (i : ℕ) (b : Bool) (p : Threadpool Task)
      → asleep_at p.workers i ≡ b
      → PoolIsAwake p
      → PoolIsAwake (notify_one i b p)
  unfolding notify_one
  notify_one-IsAwake i true p e h = woken-IsAwake (p.notifies - 1) i p e h
  notify_one-IsAwake i false p e h = elim (Bool-cases (any is_asleep p.workers)) [
    | inl others ↦ simp others h
    | inr nobody ↦ simp nobody (record {
      some_worker = h.some_worker;
      none_waits = h.none_waits;
      attended = inr (inr (omega (arith, any-total is_asleep p.workers nobody, h.some_worker)));
    })
  ]
