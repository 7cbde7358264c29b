-- ===== src/Timer/Tick.antt =====
-- timer/timer.h: the tick thread of `Timer`, its constructor's thread, and the destructor. A step is one
-- access of a thread to what the threads share: `tm_id`, the map of identifiers, what `tm_mutex` guards,
-- and `tm_running`. What `run_local` does under its lock, up to where it sleeps or has let the lock go, is
-- one step; its one access to the map, which `cancel` changes without that lock, is in it. The post comes
-- behind it, as a step of its own. A method that adds a timer takes three steps, and only the last has
-- the lock.
pub mod Timely
pub mod Sleep
pub mod Stop
pub mod Settled
pub mod Cancel
use high_performance_concurr.Base.{
  ℕ, ltb, ◌^◌, ◌+◌, Bool, true, false, Option, none, some, List, [], ◌∷◌, ◌++◌, ◌%◌, leb,
  if◌then◌else◌, get_elem?, ℕ_discrete,
}
use high_performance_concurr.Threadpool.{Threadpool, remove_at, idl_thread_cnt}
use high_performance_concurr.Timer.HashMap
use high_performance_concurr.Timer.Schedule
use high_performance_concurr.Timer.Schedule.{
  Timer, Node, Action, ends, waits, waits_for, drops, posts, running, round, push, cancel,
}

-- Where the thread is: before its test of `tm_running`; behind it, before it has the lock; with the
-- lock, about to sleep, or asleep, up to a time if there is one; behind the lock with a callback to
-- post; and out of the loop.
pub data Place (Task : Type 0) : Type 0 where
  testing : Place Task
  locking : Place Task
  dozing : Option ℕ → Place Task
  asleep : Option ℕ → Place Task
  posting : ℕ → Task → Place Task
  ended : Place Task

-- `drawn` are the nodes of calls that have their identifier and have not yet put it into the map;
-- `entered` those of calls that have, and have not yet pushed.
pub record TickThread (Task : Type 0) : Type 0 where
  pub timer : Timer Task
  pub place : Place Task
  pub drawn : List (Node Task)
  pub entered : List (Node Task)

-- A step: a method that makes a node draws its identifier, puts it into the map, and pushes the node,
-- where the number says of which call; `cancel`; the thread tests `tm_running`; takes the lock and goes on up
-- to where it sleeps or has let it go, with two readings of the clock; posts; falls asleep; wakes up
-- with no notification, or because its time has come; the destructor sets `tm_running`, or notifies
-- all.
pub data Event (Task : Type 0) : Type 0 where
  draws : Node Task → Event Task
  enters : ℕ → Event Task
  pushes : ℕ → Event Task
  cancels : ℕ → Event Task
  tests : Event Task
  rounds : ℕ → ℕ → Event Task
  posts_task : Event Task
  sleeps : Event Task
  wakes : Event Task
  times_out : ℕ → Event Task
  stops : Event Task
  notifies_all : Event Task

-- `tm_cond.notify_all()`: a thread that sleeps goes back to the test of the loop.
unfoldable pub woken : {Task : Type 0} → Place Task → Place Task
woken testing = testing
woken locking = locking
woken (dozing u) = dozing u
woken (asleep u) = testing
woken (posting id f) = posting id f
woken ended = ended

module _ {Task : Type 0} where
  -- The constructor and `run`.
  unfoldable pub start : TickThread Task
  start = record { timer = Schedule.init; place = testing; drawn = []; entered = [] }

  -- `is_available`, on the thread pool of the timer: its counter of idle threads, an `int`, is not
  -- negative.
  unfoldable pub is_available : Threadpool Task → Bool
  unfolding idl_thread_cnt
  is_available p = ltb (idl_thread_cnt p) (2 ^ 31)

  -- `tm_id.fetch_add(1)`.
  unfoldable pub draw : Node Task → TickThread Task → TickThread Task
  draw s t = record t {
    timer = record t.timer { next_id = (t.timer.next_id + 1) % 2 ^ 32 };
    drawn = t.drawn ++ (record s { id = t.timer.next_id } ∷ []);
  }

  -- `tm_id_state_map.emplace`.
  unfoldable pub enter : ℕ → Option (Node Task) → TickThread Task → TickThread Task
  enter i none t = t
  enter i (some s) t = record t {
    timer = record t.timer { states = HashMap.emplace ℕ_discrete s.id running t.timer.states };
    drawn = remove_at t.drawn i;
    entered = t.entered ++ (s ∷ []);
  }

  -- `tm_queue.push`.
  abbrev pub queued : ℕ → Node Task → TickThread Task → TickThread Task
  queued i s t = record t {
    timer = record t.timer { queue = push s t.timer.queue };
    entered = remove_at t.entered i;
  }

  -- The end of a method; it waits for the lock while the thread has it.
  unfoldable pub add : Place Task → ℕ → Node Task → TickThread Task → TickThread Task
  add (dozing u) i s t = t
  add testing i s t = queued i s t
  add locking i s t = queued i s t
  add (asleep u) i s t = record (queued i s t) { place = woken (asleep u) }
  add (posting id f) i s t = queued i s t
  add ended i s t = queued i s t

  unfoldable pub add_entered : ℕ → Option (Node Task) → TickThread Task → TickThread Task
  add_entered i none t = t
  add_entered i (some s) t = add t.place i s t

  unfoldable pub test : Place Task → TickThread Task → TickThread Task
  test testing t = record t { place = if t.timer.on then locking else ended }
  test locking t = t
  test (dozing u) t = t
  test (asleep u) t = t
  test (posting id f) t = t
  test ended t = t

  -- Where the thread goes from a round that read the clock at `now`.
  unfoldable pub next_place : ℕ → Action Task → Place Task
  next_place now ends = ended
  next_place now waits = dozing none
  next_place now (waits_for n) = dozing (some (now + n))
  next_place now (drops id) = testing
  next_place now (posts id f) = posting id f

  unfoldable pub take_round : Place Task → ℕ → ℕ → TickThread Task → TickThread Task
  take_round locking now now' t =
      let (timer, a) = round now now' t.timer.queue t.timer in
      record t { timer = timer; place = next_place now a }
  take_round testing now now' t = t
  take_round (dozing u) now now' t = t
  take_round (asleep u) now now' t = t
  take_round (posting id f) now now' t = t
  take_round ended now now' t = t

  -- `post_task`, behind `lock.unlock()`.
  unfoldable pub post : Place Task → TickThread Task → TickThread Task × List (ℕ × Task)
  post (posting id f) t = (record t { place = testing }, (id, f) ∷ [])
  post testing t = (t, [])
  post locking t = (t, [])
  post (dozing u) t = (t, [])
  post (asleep u) t = (t, [])
  post ended t = (t, [])

  unfoldable pub fall_asleep : Place Task → TickThread Task → TickThread Task
  fall_asleep (dozing u) t = record t { place = asleep u }
  fall_asleep testing t = t
  fall_asleep locking t = t
  fall_asleep (asleep u) t = t
  fall_asleep (posting id f) t = t
  fall_asleep ended t = t

  unfoldable pub time_out : Place Task → ℕ → TickThread Task → TickThread Task
  time_out (asleep (some u)) now t = if leb u now then record t { place = testing } else t
  time_out (asleep none) now t = t
  time_out testing now t = t
  time_out locking now t = t
  time_out (dozing u) now t = t
  time_out (posting id f) now t = t
  time_out ended now t = t

  -- A step, and the callbacks that it posts to the thread pool; one that the state does not allow
  -- does nothing.
  unfoldable pub step : Event Task → TickThread Task → TickThread Task × List (ℕ × Task)
  step (draws s) t = (draw s t, [])
  step (enters i) t = (enter i (get_elem? t.drawn i) t, [])
  step (pushes i) t = (add_entered i (get_elem? t.entered i) t, [])
  step (cancels id) t = (record t { timer = cancel id t.timer }, [])
  step tests t = (test t.place t, [])
  step (rounds now now') t = (take_round t.place now now' t, [])
  step posts_task t = post t.place t
  step sleeps t = (fall_asleep t.place t, [])
  step wakes t = (record t { place = woken t.place }, [])
  step (times_out now) t = (time_out t.place now t, [])
  step stops t = (record t { timer = record t.timer { on = false } }, [])
  step notifies_all t = (record t { place = woken t.place }, [])

  abbrev pub run_all : List (Event Task) → TickThread Task → TickThread Task × List (ℕ × Task)
  run_all [] t = (t, [])
  run_all (e ∷ es) t =
      let (t', out) = step e t in let (t2, rest) = run_all es t' in (t2, out ++ rest)
