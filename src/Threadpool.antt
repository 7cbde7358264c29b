-- ===== src/Threadpool.antt =====
-- threadpool/threadpool.h: `Threadpool`, without THREADPOOL_AUTO_GROW, as the source builds it. A
-- step is one access of a thread to what the threads share; the threads take theirs in any order.
pub mod Count
pub mod Places
pub mod Start
pub mod Order
pub mod Idle
pub mod Awake
pub mod Wakeup
pub mod Shutdown
mod Tests
use high_performance_concurr.Base.{
  ℕ, zero, suc, ◌+◌, ◌-◌, ◌%◌, ◌^◌, Bool, true, false, Option, none, some, List, [], ◌∷◌, ◌++◌, min,
  leb, if◌then◌else◌, Outcome, ok, aborted, check, ◌>>=◌, ◌>>◌, replicate, get_elem?, set, length,
  map, ◌||◌, ◌==◌,
}

-- Where a worker is in its loop: before it tests `tp_run`; before the wait's test, for which it takes
-- the lock; behind a test that failed, with the lock still; asleep on `tp_task_cv`; with a task, before
-- `tp_idl_tnum--`; before and behind `task()`; and out of the loop.
pub data Worker (Task : Type 0) : Type 0 where
  looping : Worker Task
  waiting : Worker Task
  dozing : Worker Task
  asleep : Worker Task
  took : Task → Worker Task
  running : Task → Worker Task
  finished : Worker Task
  ended : Worker Task

-- `tp_idl_tnum` is an `int` by its bit pattern. `posting` are the tasks of the calls of `post_task`
-- that have passed the test of `tp_run` and have not queued their task, `notifies` counts those that
-- have queued it and not yet called `notify_one`.
pub record Threadpool (Task : Type 0) : Type 0 where
  pub tasks : List Task
  pub run : Bool
  pub idl_tnum : ℕ
  pub workers : List (Worker Task)
  pub posting : List Task
  pub notifies : ℕ

-- A step: `post_task` tests `tp_run`, queues the task at an index of `posting`, or notifies the worker
-- at an index; a worker takes a step, or wakes up with no notification; the destructor sets `tp_run`,
-- or notifies all.
pub data Event (Task : Type 0) : Type 0 where
  tests : Task → Event Task
  queues : ℕ → Event Task
  notifies_one : ℕ → Event Task
  works : ℕ → Event Task
  wakes : ℕ → Event Task
  stops : Event Task
  notifies_all : Event Task

-- What a step shows: a task was queued, taken by a worker or run, or `post_task` threw.
pub data Action (Task : Type 0) : Type 0 where
  queued : Task → Action Task
  taken : Task → Action Task
  ran : Task → Action Task
  threw : Task → Action Task
  silent : Action Task

abbrev pub max_num : ℕ
max_num = 64

module _ {Task : Type 0} where
  -- `add_thread`, whose loop adds threads up to `THREADPOOL_MAX_NUM`.
  unfoldable pub add_thread : ℕ → Threadpool Task → Threadpool Task
  add_thread size p =
      let n : ℕ = min size (max_num - length p.workers) in
      record p { workers = p.workers ++ replicate n looping; idl_tnum = (p.idl_tnum + n) % 2 ^ 32 }

  -- The constructor.
  unfoldable pub make : ℕ → Outcome (Threadpool Task)
  make size = do
    check (leb size max_num)
    ok (
        add_thread size (record {
          tasks = [];
          run = true;
          idl_tnum = 0;
          workers = [];
          posting = [];
          notifies = 0;
        }))

  -- `idl_thread_cnt`, by its bit pattern, and `thread_cnt`.
  unfoldable pub idl_thread_cnt : Threadpool Task → ℕ
  idl_thread_cnt p = p.idl_tnum

  unfoldable pub thread_cnt : Threadpool Task → ℕ
  thread_cnt p = length p.workers

  abbrev pub remove_at : List Task → ℕ → List Task
  remove_at [] i = []
  remove_at (x ∷ xs) zero = xs
  remove_at (x ∷ xs) (suc i) = x ∷ remove_at xs i

  abbrev pub is_asleep : Worker Task → Bool
  is_asleep asleep = true
  is_asleep w = false

  abbrev pub is_dozing : Worker Task → Bool
  is_dozing dozing = true
  is_dozing w = false

  abbrev pub any : (Worker Task → Bool) → List (Worker Task) → Bool
  any test [] = false
  any test (w ∷ ws) = test w || any test ws

  -- `tp_lock` is held between two steps only by a worker that is about to sleep.
  abbrev pub is_locked : Threadpool Task → Bool
  is_locked p = any is_dozing p.workers

  -- The wait's test, under the lock, and what follows it where it holds.
  unfoldable pub wake : ℕ → Bool → List Task → Threadpool Task → Threadpool Task × Action Task
  wake i true [] p = (record p { workers = set p.workers i dozing }, silent)
  wake i false [] p = (record p { workers = set p.workers i ended }, silent)
  wake i run (t ∷ ts) p = (record p { workers = set p.workers i (took t); tasks = ts }, taken t)

  unfoldable pub work : ℕ → Worker Task → Threadpool Task → Threadpool Task × Action Task
  work i looping p =
      (record p { workers = set p.workers i (if p.run then waiting else ended) }, silent)
  work i waiting p = if is_locked p then (p, silent) else wake i p.run p.tasks p
  work i dozing p = (record p { workers = set p.workers i asleep }, silent)
  work i asleep p = (p, silent)
  work i (took t) p = (
    record p {
      workers = set p.workers i (running t);
      idl_tnum = (p.idl_tnum + (2 ^ 32 - 1)) % 2 ^ 32;
    },
    silent,
  )
  work i (running t) p = (record p { workers = set p.workers i finished }, ran t)
  work i finished p =
      (record p { workers = set p.workers i looping; idl_tnum = (p.idl_tnum + 1) % 2 ^ 32 }, silent)
  work i ended p = (p, silent)

  -- The task of a call leaves `posting` for the queue.
  unfoldable pub enqueue : ℕ → Option Task → Threadpool Task → Threadpool Task × Action Task
  enqueue i none p = (p, silent)
  enqueue i (some t) p = (
    record p {
      posting = remove_at p.posting i;
      tasks = p.tasks ++ (t ∷ []);
      notifies = p.notifies + 1;
    },
    queued t,
  )

  -- `notify_one` wakes a worker that sleeps, if there is one; which, is open.
  unfoldable pub notify_one : ℕ → Bool → Threadpool Task → Threadpool Task
  notify_one i true p = record p { workers = set p.workers i waiting; notifies = p.notifies - 1 }
  notify_one i false p =
      if any is_asleep p.workers then p else record p { notifies = p.notifies - 1 }

  abbrev pub asleep_at : List (Worker Task) → ℕ → Bool
  asleep_at ws i = elim (get_elem? ws i) [ none ↦ false | some w ↦ is_asleep w ]

  abbrev pub woken : Worker Task → Worker Task
  woken asleep = waiting
  woken w = w

  -- A step; one that the state does not allow does nothing.
  unfoldable pub step : Event Task → Threadpool Task → Threadpool Task × Action Task
  step (tests t) p =
      if p.run then (record p { posting = p.posting ++ (t ∷ []) }, silent) else (p, threw t)
  step (queues i) p = if is_locked p then (p, silent) else enqueue i (get_elem? p.posting i) p
  step (notifies_one i) p =
      if p.notifies == 0 then (p, silent) else (notify_one i (asleep_at p.workers i) p, silent)
  step (works i) p = elim (get_elem? p.workers i) [ none ↦ (p, silent) | some w ↦ work i w p ]
  step (wakes i) p =
      if asleep_at p.workers i
      then (record p { workers = set p.workers i waiting }, silent)
      else (p, silent)
  step stops p = (record p { run = false }, silent)
  step notifies_all p =
      if p.run then (p, silent) else (record p { workers = map woken p.workers }, silent)

  -- A history, and what it shows, in order.
  abbrev pub run_all : List (Event Task) → Threadpool Task → Threadpool Task × List (Action Task)
  run_all [] p = (p, [])
  run_all (e ∷ es) p = let (p', a) = step e p in let (p2, acts) = run_all es p' in (p2, a ∷ acts)
