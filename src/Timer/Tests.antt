-- ===== src/Timer/Tests.antt =====
-- Small timers, and the theorems on them.
use high_performance_concurr.Base.{
  refl, some, ℕ_discrete, ℕ, suc, ◌≤◌, ◌≡◌, ◌+◌, ◌*◌, true, false, none, List, [], ◌∷◌, replicate,
  arith,
}
use high_performance_concurr.Timer.HashMap
use high_performance_concurr.Timer.HashMap.Function
use high_performance_concurr.Timer.HashMap.Function.{Op, emplaces, erases, map_is_function}
use high_performance_concurr.Timer.Tick
use high_performance_concurr.Timer.Tick.{TickThread}
use high_performance_concurr.Timer.Tick.Sleep.{known_post, due_is_posted}
use high_performance_concurr.Timer.Tick.Stop.{stop_is_missed}
use high_performance_concurr.Timer.Schedule.{
  Node, after_node, round, push, add_node, Timer, running, init, run_after, tick, ns_per_ms,
}
use high_performance_concurr.Timer.Schedule.History.{Event, after, repeated, ticks, posted, run}
use high_performance_concurr.Timer.Tick.Cancel.{cancel_is_final}
use high_performance_concurr.Timer.Schedule.Order.{DuePosts, posts_in_order}
use high_performance_concurr.Timer.Schedule.Nodes.{posts_of}
use high_performance_concurr.Timer.Schedule.Once.{one_shot_once}
use high_performance_concurr.Timer.Schedule.Repeat.{rounds_from, repeats_once_more}

-- The timer 0 is to run the task 7 at 5 ms.
abbrev one_timer : Timer ℕ
one_timer = record {
  queue =
      record {
        tm_point = 5000000;
        callback = 7;
        id = 0;
        repeated_num = 0;
        is_period = false;
        is_repeated = false;
        period = 5000000;
      }
      ∷ [];
  on = true;
  next_id = 1;
  states = (0, running) ∷ [];
}

abbrev later : List (Event ℕ)
later = after 0 3 true 8 ∷ ticks 6000000 6000001 ∷ ticks 6000002 6000003 ∷ []

-- The tick thread is about to post the timer 0, whose node has just left the queue.
abbrev posting_thread : TickThread ℕ
posting_thread = record {
  timer = record one_timer { queue = [] };
  place = Tick.posting 0 7;
  drawn = [];
  entered = [];
}

abbrev behind_cancel : List (Tick.Event ℕ)
behind_cancel =
    Tick.draws (after_node 0 3 true 8) ∷ Tick.posts_task ∷ Tick.tests ∷ Tick.rounds 5 6 ∷ []

cancel_is_final_example :
    posts_of 0 (Tick.run_all (Tick.cancels 0 ∷ behind_cancel) posting_thread).1 ≤ 1
cancel_is_final_example =
    cancel_is_final behind_cancel 0 posting_thread (omega arith) tt (omega arith)

posts_in_order_example :
    DuePosts (run later init).0 6000004 (posted (tick 6000004 6000005 (run later init).0).1)
posts_in_order_example = posts_in_order later 6000004 6000005

repeats_once_more_example :
    let period : ℕ = 5 * ns_per_ms in
    let (t, out) =
      run {Task = ℕ} (repeated 10 5 2 7 ∷ rounds_from (10 + period) period (suc 2)) init in
    (out ≡ replicate (suc 2) (0, 7)) × (t.queue ≡ [])
repeats_once_more_example = repeats_once_more 10 5 2 7

one_shot_once_example : posts_of 1 (run later (run_after 0 4 false 9 one_timer).0).1 ≤ 1
one_shot_once_example = one_shot_once 0 4 9 later one_timer (omega arith, tt) (omega arith)

-- A timer of 5 ms is set, and the tick thread sleeps until it is due.
abbrev to_sleep : List (Tick.Event ℕ)
to_sleep =
    Tick.draws (after_node 0 5 false 7)
    ∷ Tick.enters 0
    ∷ Tick.pushes 0
    ∷ Tick.tests
    ∷ Tick.rounds 0 1
    ∷ Tick.sleeps
    ∷ []

abbrev thread : TickThread ℕ
thread = (Tick.run_all to_sleep Tick.start).0

due_is_posted_example :
    (s : Node ℕ) × (rest : List (Node ℕ)) × (thread.timer.queue ≡ s ∷ rest)
    × (s.tm_point ≡ 5000000)
    × ((Tick.run_all
          (Tick.times_out 5000000 ∷ Tick.tests ∷ Tick.rounds 5000001 5000002 ∷ Tick.posts_task ∷ [])
          thread).1
        ≡ known_post s thread.timer)
unfolding Tick.start Tick.step Tick.draw Tick.enter Tick.add_entered Tick.add Tick.test
    Tick.take_round Tick.fall_asleep Tick.next_place round push add_node
due_is_posted_example =
    due_is_posted to_sleep 5000000 5000000 5000001 5000002 refl refl (omega arith) (omega arith)

-- A thread with no timer.
abbrev locking_thread : TickThread ℕ
locking_thread = record { timer = init; place = Tick.locking; drawn = []; entered = [] }

stop_is_missed_example :
    (Tick.run_all
      (Tick.stops
        ∷ Tick.notifies_all
        ∷ Tick.rounds 3 4
        ∷ Tick.sleeps
        ∷ Tick.tests
        ∷ Tick.times_out 9
        ∷ [])
      locking_thread).0.place
    ≡ Tick.asleep none
stop_is_missed_example =
    stop_is_missed (Tick.tests ∷ Tick.times_out 9 ∷ []) 3 4 locking_thread refl refl (tt, (tt, tt))

abbrev map_calls : List (Op ℕ ℕ)
map_calls = emplaces 3 7 ∷ emplaces 4 8 ∷ emplaces 3 9 ∷ erases 4 ∷ []

map_is_function_example :
    (HashMap.get_val ℕ_discrete 3 (Function.run ℕ_discrete map_calls []) ≡ some 9)
    × (HashMap.is_key_exist ℕ_discrete 3 (Function.run ℕ_discrete map_calls []) ≡ true)
unfolding ℕ_discrete
map_is_function_example = map_is_function ℕ_discrete map_calls 3
