-- ===== src/Net/Tests/Streams.antt =====
-- What a small connection reads and writes, and how a small server starts.
use high_performance_concurr.Base.{
  ℕ, ◌+◌, ◌≡◌, refl, true, false, none, some, List, [], ◌∷◌, arith, inr, ok,
}
use high_performance_concurr.Memory.Buffer.{done, again}
use high_performance_concurr.Memory.Buffer.Room.{NoChunk}
use high_performance_concurr.Memory.Pool.Invariant.{Ensures}
use high_performance_concurr.Memory.Tests.{small, small-Inv, no_lists, first_held, sys}
use high_performance_concurr.Net.Connection.{do_read}
use high_performance_concurr.Net.Connection.History.{Call, sends, writes, IsStreaming, Passed}
use high_performance_concurr.Net.Connection.History.Output.{calls_of, output_is_stream}
use high_performance_concurr.Net.Connection.Stepwise.{RanOut, all_given, run_all}
use high_performance_concurr.Net.Connection.Read.{DonePost, do_read-DonePost}
use high_performance_concurr.Net.Echo.{Turn, arrives, flushes}
use high_performance_concurr.Net.Echo.Stream.{echo_of}
use high_performance_concurr.Net.Connection.Setup.{Socket}
use high_performance_concurr.Net.Server.Setup.{Callbacks, new_conn}
use high_performance_concurr.Net.Server.Setup.Echoes.{Echoed, accepted_echoes}
use high_performance_concurr.Net.Connection.{
  queues_connected, watches_input, runs_close_cb, unwatches, closes, cleans,
}
use high_performance_concurr.Net.Connection.Read.{shut}
use high_performance_concurr.Net.Server.{Server, add_new_tcp_conn, do_clean}
use high_performance_concurr.Net.Server.Twice.{close_again, closes_twice}
use high_performance_concurr.Timer.Schedule
use high_performance_concurr.Timer.Schedule.{tick}
use high_performance_concurr.Timer.Schedule.History.{posted}
use high_performance_concurr.Memory.Store.{Mem}
use high_performance_concurr.Net.Server.Start.{Startup, Serves, start, start-Serves}
use high_performance_concurr.Net.Acceptor.{accepted}
use high_performance_concurr.Net.Tests.{conn, server, answers}

-- Two bytes of the three go, two more come, and then the kernel takes one and no more.
abbrev calls : List Call
calls = writes (done 2 ∷ again ∷ []) ∷ sends (λ i. i + 7) 2 ∷ writes (done 1 ∷ again ∷ []) ∷ []

conn-IsStreaming : IsStreaming small no_lists first_held (some 0) true
conn-IsStreaming = record { inv = small-Inv; owns = refl; front = refl; watching = inr refl }

output_is_stream_example :
    Ensures
      (RanOut (calls_of sys) calls conn small)
      (Passed small conn true (all_given (calls_of sys) calls))
      (run_all (calls_of sys) calls conn small)
output_is_stream_example =
    output_is_stream sys calls conn small no_lists first_held true conn-IsStreaming
      ((omega arith, tt), (omega arith, ((omega arith, tt), tt)))

do_read-DonePost_example :
    Ensures
      (NoChunk sys small no_lists 4)
      (DonePost small first_held conn 4 (λ i. i) (done 4))
      (do_read sys (some 4) (λ i. i) (done 4) conn small)
do_read-DonePost_example =
    do_read-DonePost sys small no_lists first_held 4 (λ i. i) (done 4) conn small-Inv tt refl
      (λ e. cc) refl (omega arith) (inr refl)

-- A server that is to have two threads.
abbrev startup : Startup
startup = record {
  server = record server { conn_loops = [] };
  started = false;
  thread_num = 2;
  timer_runs = false;
  posted = [];
  listening = false;
  listen_tasks = 0;
  is_watched = false;
}

start-Serves_example :
    (s1 : Startup) × (start (λ i. 100 + i) startup ≡ ok s1)
    × Serves false (accepted 31 10 ∷ answers) (some 8) s1.server
start-Serves_example =
    start-Serves (λ i. 100 + i) 31 10 answers (some 8) startup refl refl (λ e. absurd (omega arith))
      (omega arith)

-- Four bytes come in, of which the kernel takes back one.
abbrev turns : List Turn
turns = arrives (λ i. i + 7) 4 ∷ flushes (done 1 ∷ again ∷ []) ∷ []

-- The socket of the descriptor 6, and a server with two callbacks.
abbrev socket : Socket
socket = record { nonblock = false; flags = 2; nodelay = false }

abbrev cbs : Callbacks ℕ
cbs = record { connected_cb = none; msg_cb = some 1; close_cb = some 2 }

accepted_echoes_example :
    ((new_conn 1 2 6 9 socket cbs).1.nonblock ≡ true)
    × ((new_conn 1 2 6 9 socket cbs).2 ≡ queues_connected ∷ watches_input (some 6) ∷ [])
    × Ensures
        (RanOut (echo_of sys) turns (new_conn 1 2 6 9 socket cbs).0.io small)
        (Echoed sys turns)
        (run_all (echo_of sys) turns (new_conn 1 2 6 9 socket cbs).0.io small)
accepted_echoes_example =
    accepted_echoes sys 1 2 6 9 socket cbs turns small no_lists first_held small-Inv
      ((omega arith, omega arith), ((omega arith, tt), tt))

-- A server with no timer.
abbrev new_server : Server
new_server = record server { timer = Schedule.init }

closes_twice_example :
    (posted (tick 7000000000 7000000001 (do_clean 21 (add_new_tcp_conn 0 21 new_server)).timer).1
      ≡ (0, 21) ∷ [])
    × ((m' : Mem) × (close_again conn small
          ≡ ok (
            (
              shut conn,
              runs_close_cb
                  ∷ unwatches (some 5)
                  ∷ closes (some 5)
                  ∷ cleans
                  ∷ runs_close_cb
                  ∷ unwatches none
                  ∷ closes none
                  ∷ cleans
                  ∷ [],
            ),
            m',
          )))
closes_twice_example =
    closes_twice 0 7000000000 7000000001 21 new_server conn small no_lists first_held refl refl
      (omega arith) refl small-Inv tt refl (λ e. cc)
