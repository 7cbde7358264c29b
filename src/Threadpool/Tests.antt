-- ===== src/Threadpool/Tests.antt =====
-- A pool of one thread, and the theorems on it.
use high_performance_concurr.Base.{
  ℕ, ◌≡◌, refl, true, List, [], ◌∷◌, ◌++◌, arith, ok, length, get_elem?, some, ◌<◌, ◌⊎◌,
}
use high_performance_concurr.Threadpool.{
  Threadpool, looping, dozing, asleep, Event, tests, queues, notifies_one, works, stops,
  notifies_all, run_all, make, add_thread, step, work, wake, enqueue, is_asleep,
}
use high_performance_concurr.Threadpool.Order.{all_taken, all_queued, taken_in_order}
use high_performance_concurr.Threadpool.Idle.{IsCounted, idle_count}
use high_performance_concurr.Threadpool.Count.{total}
use high_performance_concurr.Threadpool.Places.{one}
use high_performance_concurr.Threadpool.Start.{fresh}
use high_performance_concurr.Threadpool.Wakeup.{task_is_attended}
use high_performance_concurr.Threadpool.Shutdown.{shutdown_is_missed}

abbrev pool : Threadpool ℕ
pool = record {
  tasks = [];
  run = true;
  idl_tnum = 1;
  workers = looping ∷ [];
  posting = [];
  notifies = 0;
}

-- Tasks 7 and 8 are posted, the thread takes one and runs it, and the pool stops.
abbrev history : List (Event ℕ)
history =
    tests 7
    ∷ tests 8
    ∷ queues 1
    ∷ queues 0
    ∷ notifies_one 0
    ∷ works 0
    ∷ works 0
    ∷ works 0
    ∷ works 0
    ∷ works 0
    ∷ stops
    ∷ []

taken_in_order_example :
    all_taken (run_all history pool).1 ++ (run_all history pool).0.tasks
    ≡ pool.tasks ++ all_queued (run_all history pool).1
taken_in_order_example = taken_in_order history pool

idle_count_example :
    (p : Threadpool ℕ) × (make 4 ≡ ok p)
    × (length p.workers ≡ 4)
    × IsCounted (run_all history p).0.idl_tnum (run_all history p).0.workers
idle_count_example = idle_count 4 history (omega arith)

-- Two threads, of which one falls asleep before task 7 is queued.
abbrev posting_one : List (Event ℕ)
posting_one = works 0 ∷ works 0 ∷ works 0 ∷ tests 7 ∷ queues 0 ∷ []

task_is_attended_example :
    (0 < (run_all posting_one (fresh ℕ 2)).0.notifies)
    ⊎ (total (one is_asleep) (run_all posting_one (fresh ℕ 2)).0.workers
        < length (run_all posting_one (fresh ℕ 2)).0.workers)
unfolding make add_thread step work wake enqueue
task_is_attended_example =
    task_is_attended 2 posting_one (fresh ℕ 2) (omega arith) (omega arith) refl refl (λ e. cc)

-- The thread has found no task and is about to sleep.
abbrev about_to_sleep : Threadpool ℕ
about_to_sleep = record {
  tasks = [];
  run = true;
  idl_tnum = 1;
  workers = dozing ∷ [];
  posting = [];
  notifies = 0;
}

shutdown_is_missed_example :
    get_elem? (run_all (stops ∷ notifies_all ∷ works 0 ∷ works 0 ∷ []) about_to_sleep).0.workers 0
    ≡ some asleep
shutdown_is_missed_example =
    shutdown_is_missed (works 0 ∷ []) 0 about_to_sleep refl refl refl (tt, tt)
