-- ===== src/Net/EventLoop.antt =====
-- net/event_loop.cpp: the tasks of `EventLoop`, and the event descriptor that wakes the thread that
-- runs `loop`. A step is one access of a thread to what the threads share. The loop's own thread is
-- the one of `el_tid`, which made the loop: a task that it adds runs at once, and is not in the queue.
pub mod Wakeup
pub mod Poller
use high_performance_concurr.Base.{
  ℕ, ◌+◌, ◌-◌, Bool, true, false, List, [], ◌∷◌, ◌++◌, if◌then◌else◌, ◌==◌,
}

-- Where the thread that runs `loop` is: before it; in `poll`; behind that, before the swap of
-- `execute_task_funcs`; running the tasks that it took; and behind the loop.
pub data Place : Type 0 where
  unstarted : Place
  polling : Place
  awake : Place
  dealing : Place
  ended : Place

-- `evfd` is the counter of the event descriptor; `adding` counts the calls on other threads that have
-- still to write to it: of `add_task`, which have queued their task, and of `quit`.
pub record Loop (Task : Type 0) : Type 0 where
  pub task_funcs : List Task
  pub evfd : ℕ
  pub adding : ℕ
  pub place : Place
  pub quit : Bool

-- A step: `loop` begins; another thread queues a task, or writes to the descriptor behind that; the
-- own thread adds one; `poll` returns, with the descriptor read or for another descriptor; the tasks
-- are swapped out; they have run; the own thread, or another one, calls `quit`.
pub data Event (Task : Type 0) : Type 0 where
  begins : Event Task
  queues : Task → Event Task
  wakes : Event Task
  adds_own : Event Task
  polls : Bool → Event Task
  swaps : Event Task
  ends : Event Task
  quits : Bool → Event Task

module _ {Task : Type 0} where
  -- `add_task` on another thread, its two parts.
  unfoldable pub queue_task : Task → Loop Task → Loop Task
  queue_task t l = record l { task_funcs = l.task_funcs ++ (t ∷ []); adding = l.adding + 1 }

  unfoldable pub evfd_wakeup : Loop Task → Loop Task
  evfd_wakeup l = record l {
    evfd = if l.adding == 0 then l.evfd else l.evfd + 1;
    adding = l.adding - 1;
  }

  -- What `add_task` on the own thread does behind the task: it writes while tasks are run.
  unfoldable pub add_own : Place → Loop Task → Loop Task
  add_own dealing l = record l { evfd = l.evfd + 1 }
  add_own unstarted l = l
  add_own polling l = l
  add_own awake l = l
  add_own ended l = l

  unfoldable pub begin_loop : Place → Loop Task → Loop Task
  begin_loop unstarted l = record l { quit = false; place = polling }
  begin_loop polling l = l
  begin_loop awake l = l
  begin_loop dealing l = l
  begin_loop ended l = l

  unfoldable pub quit_loop : Bool → Loop Task → Loop Task
  quit_loop own l = record l { quit = true; adding = if own then l.adding else l.adding + 1 }

  -- `poll` returns; `evfd_read` sets the counter to 0.
  unfoldable pub poll_returns : Bool → Place → Loop Task → Loop Task
  poll_returns evfd_ready polling l = record l {
    evfd = if evfd_ready then 0 else l.evfd;
    place = awake;
  }
  poll_returns evfd_ready awake l = l
  poll_returns evfd_ready dealing l = l
  poll_returns evfd_ready unstarted l = l
  poll_returns evfd_ready ended l = l

  -- `functors.swap(el_task_funcs)`; the list is what is then run, in order.
  unfoldable pub swap_tasks : Place → Loop Task → Loop Task × List Task
  swap_tasks awake l = (record l { task_funcs = []; place = dealing }, l.task_funcs)
  swap_tasks polling l = (l, [])
  swap_tasks dealing l = (l, [])
  swap_tasks unstarted l = (l, [])
  swap_tasks ended l = (l, [])

  -- The tasks have run, and the loop tests `el_quit`.
  unfoldable pub end_tasks : Place → Loop Task → Loop Task
  end_tasks dealing l = record l { place = if l.quit then ended else polling }
  end_tasks polling l = l
  end_tasks awake l = l
  end_tasks unstarted l = l
  end_tasks ended l = l

  -- One step, and the tasks that it runs. One that the state does not allow does nothing.
  unfoldable pub step : Event Task → Loop Task → Loop Task × List Task
  step (queues t) l = (queue_task t l, [])
  step wakes l = (evfd_wakeup l, [])
  step (polls evfd_ready) l = (poll_returns evfd_ready l.place l, [])
  step swaps l = swap_tasks l.place l
  step ends l = (end_tasks l.place l, [])
  step begins l = (begin_loop l.place l, [])
  step adds_own l = (add_own l.place l, [])
  step (quits own) l = (quit_loop own l, [])

  abbrev pub added : Event Task → List Task
  added (queues t) = t ∷ []
  added wakes = []
  added (polls r) = []
  added swaps = []
  added ends = []
  added begins = []
  added adds_own = []
  added (quits own) = []

  abbrev pub run_all : List (Event Task) → Loop Task → Loop Task × List Task
  run_all [] l = (l, [])
  run_all (e ∷ es) l =
      let (l1, out) = step e l in let (l2, rest) = run_all es l1 in (l2, out ++ rest)
