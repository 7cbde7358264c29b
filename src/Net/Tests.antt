-- ===== src/Net/Tests.antt =====
-- A small poller, connection and server, and the theorems on them.
mod Streams
use high_performance_concurr.Base.{
  ◌⊎◌, List, inl, ◌++◌, ℕ, ◌+◌, ◌≡◌, ◌≢◌, refl, Bool, true, false, Option, none, some, [], ◌∷◌,
  arith, Outcome, ok, length, All, ℕ_discrete,
}
use high_performance_concurr.Timer.HashMap
use high_performance_concurr.Timer.HashMap.{HashMap}
use high_performance_concurr.Timer.Schedule.{running}
use high_performance_concurr.Timer.Tick
use high_performance_concurr.Timer.Tick.{TickThread}
use high_performance_concurr.Memory.Buffer.{done, failed}
use high_performance_concurr.Memory.Buffer.Room.{NoChunk}
use high_performance_concurr.Memory.Pool.Invariant.{Ensures}
use high_performance_concurr.Memory.Tests.{small, small-Inv, no_lists, first_held, sys}
use high_performance_concurr.Log.Queue.{negsuc}
use high_performance_concurr.Log.Queue.Ring.{ring}
use high_performance_concurr.Net.Epoll.{
  Events, IoEvent, Epoll, Ctl, adds, mods, dels, epoll_add, epoll_del, poll,
}
use high_performance_concurr.Net.Epoll.Interest.{IsCtl, Agrees}
use high_performance_concurr.Net.Epoll.History.{
  Call, watches, lowers, forgets, Listed, IsTidy, run_calls,
}
use high_performance_concurr.Net.Epoll.Reaction.{Dispatched}
use high_performance_concurr.Net.Epoll.Dispatch.{Keeps, Has, poll_ends}
use high_performance_concurr.Net.EventLoop.Poller.{make_loop, make_loop-IsTidy}
use high_performance_concurr.Net.Connection.{Connection, do_close, do_write, send}
use high_performance_concurr.Net.Connection.Answers.{breaks}
use high_performance_concurr.Net.Connection.Write.{Wrote, Cut, do_write-Written}
use high_performance_concurr.Net.Connection.Send.{SendPost, send-SendPost}
use high_performance_concurr.Net.Connection.Close.{Closed, do_close-Closed}
use high_performance_concurr.Net.Server.{Server, add_new_tcp_conn, do_clean}
use high_performance_concurr.Net.Server.RoundRobin.{next_loops, next_loops_in_turn}
use high_performance_concurr.Net.Server.Sessions.{copies, messages, closed_is_kept}
use high_performance_concurr.Net.EventLoop
use high_performance_concurr.Net.EventLoop.{Loop, polling, queues, wakes, polls, swaps, ends, quits}
use high_performance_concurr.Net.EventLoop.Wakeup.{
  Pending, waits_with_wakeup, tasks_in_order, all_added,
}
use high_performance_concurr.Net.Acceptor.{Answer, accepted, eintr, emfile, eagain, do_accept}
use high_performance_concurr.Net.Acceptor.Batch.{Accepted, do_accept-Accepted}

-- A kernel that keeps its interest list as a map and refuses nothing.
abbrev Kernel : Type 0
Kernel = HashMap ℕ Events

abbrev ctl : Ctl → Kernel → Kernel × Bool
ctl (adds fd e) k = (HashMap.emplace ℕ_discrete fd e k, true)
ctl (mods fd e) k = (HashMap.emplace ℕ_discrete fd e k, true)
ctl (dels fd) k = (HashMap.erase ℕ_discrete fd k, true)

abbrev interest : ℕ → Kernel → Option Events
interest fd k = HashMap.find ℕ_discrete fd k

ctl-IsCtl : IsCtl Kernel ctl interest
ctl-IsCtl = record {
  added = λ fd j e k success. HashMap.find-emplace ℕ_discrete fd j e k;
  modified = λ fd j e k success. HashMap.find-emplace ℕ_discrete fd j e k;
  removed = λ fd j k. HashMap.find-erase ℕ_discrete fd j k;
}

abbrev reads : Events
reads = record { input = true; output = false; error = false; hangup = false }

abbrev writes : Events
writes = record { input = false; output = true; error = false; hangup = false }

-- Descriptor 5 is watched for input; its callback is the number 9.
abbrev poller : Epoll Kernel ℕ
poller = record {
  kernel = (5, reads) ∷ [];
  listen_fds = 5 ∷ [];
  event_map = (5, record { event = reads; read_callback = some 9; write_callback = none }) ∷ [];
}

-- A loop's poller from the start; the descriptor 5 is watched for input and for output, then no more
-- for input, and the descriptor 6 comes and goes.
abbrev calls : List (Call ℕ)
calls =
    watches 5 reads 9 ∷ watches 5 writes 10 ∷ lowers 5 reads ∷ watches 6 reads 11 ∷ forgets 6 ∷ []

make_loop-IsTidy_example :
    (ep : Epoll Kernel ℕ) × (make_loop ctl (some []) (some 4) 8 ≡ ok (ep, 4))
    × IsTidy ctl interest ctl-IsCtl (run_calls ctl interest ctl-IsCtl calls ep)
unfolding HashMap.find ℕ_discrete epoll_del epoll_add HashMap.emplace
make_loop-IsTidy_example =
    make_loop-IsTidy ctl interest ctl-IsCtl [] 4 8 calls (λ j. refl)
      (refl, (refl, (refl, (λ io known left. refl, (refl, (tt, tt))))))

-- A callback that leaves the poller as it is.
abbrev idle_call : ℕ → Epoll Kernel ℕ → Outcome (Epoll Kernel ℕ)
idle_call cb ep = ok ep

idle_call-Keeps :
    (fd : ℕ) (io : IoEvent ℕ) (cb : ℕ) (ep : Epoll Kernel ℕ)
    → HashMap.find ℕ_discrete fd ep.event_map ≡ some io
    → Has io cb
    → Keeps fd ep (idle_call cb ep)
idle_call-Keeps fd io cb ep known has = record {
  after = ep;
  result = refl;
  kept = λ j ne there. there;
}

five_is_watched : HashMap.find ℕ_discrete 5 poller.event_map ≢ none
unfolding HashMap.find ℕ_discrete
five_is_watched e = ground arith

poll_ends_example :
    (after : Epoll Kernel ℕ) × (poll ctl idle_call
        (none ∷ none ∷ some ((5, reads) ∷ []) ∷ [])
        poller
      ≡ ok (after, some 1))
    × Dispatched ctl idle_call ((5, reads) ∷ []) poller after
poll_ends_example =
    poll_ends ctl idle_call idle_call-Keeps 2 ((5, reads) ∷ []) [] poller (tt, tt)
      (five_is_watched, tt)

-- The connection of descriptor 5, with three bytes to write.
abbrev conn : Connection
conn = record {
  fd = some 5;
  ibuf = none;
  obuf = some 0;
  has_close_cb = true;
  has_connected_cb = false;
}

do_write-Written_example :
    ((breaks (done 2 ∷ failed ∷ []) 3 ≡ false)
      × Wrote small no_lists first_held 0
          (done 2 ∷ failed ∷ [])
          conn
          (do_write (done 2 ∷ failed ∷ []) conn small))
    ⊎ ((breaks (done 2 ∷ failed ∷ []) 3 ≡ true)
        × Cut small 0 (done 2 ∷ failed ∷ []) conn (do_write (done 2 ∷ failed ∷ []) conn small))
do_write-Written_example =
    do_write-Written 0 refl (done 2 ∷ failed ∷ []) conn small refl small-Inv tt (λ e. cc) refl
      (omega arith, tt)

send-SendPost_example :
    Ensures
      (NoChunk sys small no_lists 8)
      (SendPost small first_held conn (λ i. i + 7) 5)
      (send sys (λ i. i + 7) 5 conn small)
send-SendPost_example = send-SendPost small-Inv sys (λ i. i + 7) 5 conn refl refl (omega arith)

do_close-Closed_example : Closed small first_held conn (do_close conn small)
do_close-Closed_example = do_close-Closed small-Inv conn tt refl (λ e. cc)

-- A server with two loops, which knows no connection but has one timer, of connection 9.
abbrev server : Server
server = record {
  conn_loops = 100 ∷ 200 ∷ [];
  next_loop = negsuc 0;
  timer = record {
    queue =
        record {
          tm_point = 6000000000;
          callback = 9;
          id = 0;
          repeated_num = 0;
          is_period = false;
          is_repeated = false;
          period = 6000000000;
        }
        ∷ [];
    on = true;
    next_id = 1;
    states = (0, running) ∷ [];
  };
  timeout_ms = 6000;
  timer_id = λ c. 0;
  connections = [];
}

closed_is_kept_example :
    copies 9 (do_clean 9 (messages 9 (20 ∷ 30 ∷ []) (add_new_tcp_conn 10 9 server))).connections
    ≡ length {A = ℕ} (20 ∷ 30 ∷ [])
closed_is_kept_example = closed_is_kept 10 9 (20 ∷ 30 ∷ []) server refl

-- The tick thread of that server's timer.
abbrev tick_thread : TickThread ℕ
tick_thread = record { timer = server.timer; place = Tick.testing; drawn = []; entered = [] }

abbrev tick_turns : List (Tick.Event ℕ)
tick_turns = Tick.tests ∷ Tick.rounds 6000000010 6000000011 ∷ Tick.posts_task ∷ []

-- A loop whose thread is in `poll`, with nothing to do.
abbrev quiet : Loop ℕ
quiet = record { task_funcs = []; evfd = 0; adding = 0; place = polling; quit = false }

abbrev loop_history : List (EventLoop.Event ℕ)
loop_history = queues 7 ∷ queues 8 ∷ wakes ∷ polls true ∷ swaps ∷ queues 9 ∷ quits false ∷ ends ∷ []

waits_with_wakeup_example : Pending (EventLoop.run_all loop_history quiet).0
waits_with_wakeup_example = waits_with_wakeup loop_history quiet (inl refl)

tasks_in_order_example :
    (EventLoop.run_all loop_history quiet).1 ++ (EventLoop.run_all loop_history quiet).0.task_funcs
    ≡ quiet.task_funcs ++ all_added loop_history
tasks_in_order_example = tasks_in_order loop_history quiet

abbrev answers : List Answer
answers =
    accepted 31 10
    ∷ eintr
    ∷ emfile (some 34) (some 8)
    ∷ accepted 32 11
    ∷ eagain
    ∷ accepted 33 12
    ∷ []

do_accept-Accepted_example : Accepted answers 0 (some 8) server (do_accept answers (some 8) server)
do_accept-Accepted_example =
    do_accept-Accepted answers 0 (some 8) server (λ e. absurd (omega arith)) refl
