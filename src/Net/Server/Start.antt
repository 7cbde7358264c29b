-- ===== src/Net/Server/Start.antt =====
-- net/tcp_server.cpp, `TcpServer::start`, and `Acceptor::listen`: how a server comes to accept
-- connections. The threads that run the loops are in Threadpool.
use high_performance_concurr.Base.{
  Option, ℕ, zero, suc, ◌+◌, ◌-◌, ◌≤◌, ◌≡◌, ◌≢◌, refl, ap, Bool, true, false, List, [], ◌∷◌, ◌++◌,
  arith, length, length-append, leb, le→leb, if◌then◌else◌, Outcome, ok, aborted, fault, check,
  ◌>>=◌, ◌>>◌,
}
use high_performance_concurr.Log.Queue.{negsuc}
use high_performance_concurr.Threadpool.{max_num}
use high_performance_concurr.Net.Server.{Server, get_next_loop}
use high_performance_concurr.Net.Acceptor.{Answer, accepted, do_accept}
use high_performance_concurr.Net.Acceptor.Batch.{Accepted, do_accept-Accepted}

-- `ts_started`, which no constructor sets, `ts_thread_num`, whether the timer's thread runs, the loops
-- that were posted to the thread pool, `ac_listening`, how many tasks wait that call `listen`, and
-- whether the loop watches the listening descriptor.
pub record Startup : Type 0 where
  pub server : Server
  pub started : Bool
  pub thread_num : ℕ
  pub timer_runs : Bool
  pub posted : List ℕ
  pub listening : Bool
  pub listen_tasks : ℕ
  pub is_watched : Bool

-- `set_thread_num` and `set_tcp_conn_timeout_ms`.
unfoldable pub set_thread_num : ℕ → Startup → Startup
set_thread_num t_num s = record s { thread_num = t_num }

unfoldable pub set_tcp_conn_timeout_ms : ℕ → Startup → Startup
set_tcp_conn_timeout_ms ms s = record s { server = record s.server { timeout_ms = ms } }

-- The end of `start`.
abbrev pub ask_to_listen : Startup → Startup
ask_to_listen s = if s.listening then s else record s { listen_tasks = s.listen_tasks + 1 }

module _ (new_loop : ℕ → ℕ) where
  -- The loop of `start`: `n` more loops from the `i`-th on, each posted to the pool as a task that is to
  -- run it. Where `new` puts a loop is a parameter.
  unfoldable pub add_loops : ℕ → ℕ → Startup → Startup
  add_loops zero i s = s
  add_loops (suc n) i s = add_loops n (i + 1) (record s {
    server = record s.server { conn_loops = s.server.conn_loops ++ (new_loop i ∷ []) };
    posted = s.posted ++ (new_loop i ∷ []);
  })

  -- What `start` does the first time; the thread pool's constructor asserts its bound.
  unfoldable pub first_start : Startup → Outcome Startup
  first_start s = do
    check (leb s.thread_num max_num)
    ok (add_loops s.thread_num 0 (record s { started = true; timer_runs = true }))

  unfoldable pub start : Startup → Outcome Startup
  start s =
      if s.started then ok (ask_to_listen s) else (do s1 ← first_start s; ok (ask_to_listen s1))

-- `Acceptor::listen`, as a task of the acceptor's loop; `listens` says whether the system's `listen`
-- succeeds.
unfoldable pub listen : Bool → Startup → Outcome Startup
listen listens s =
    if listens
    then ok (record s { listening = true; is_watched = true; listen_tasks = s.listen_tasks - 1 })
    else aborted

-- The first connections, behind a `start` that found `ts_started` set, or not.
abbrev pub Serves : Bool → List Answer → Option ℕ → Server → Type 0
Serves true answers idle_fd s = do_accept answers idle_fd s ≡ fault
Serves false answers idle_fd s = Accepted answers 0 idle_fd s (do_accept answers idle_fd s)

module _ (new_loop : ℕ → ℕ) where
  add_loops-length :
      (n i : ℕ) (s : Startup)
      → length (add_loops new_loop n i s).server.conn_loops ≡ length s.server.conn_loops + n
  unfolding add_loops
  add_loops-length zero i s = omega arith
  add_loops-length (suc n) i s = omega (
    arith,
    add_loops-length n (i + 1) (record s {
      server = record s.server { conn_loops = s.server.conn_loops ++ (new_loop i ∷ []) };
      posted = s.posted ++ (new_loop i ∷ []);
    }),
    length-append s.server.conn_loops (new_loop i ∷ []),
  )

  add_loops-next :
      (n i : ℕ) (s : Startup) → (add_loops new_loop n i s).server.next_loop ≡ s.server.next_loop
  unfolding add_loops
  add_loops-next zero i s = refl
  add_loops-next (suc n) i s = add_loops-next n (i + 1) _

  ask-server : (s : Startup) → (ask_to_listen s).server ≡ s.server
  ask-server s = ground arith

  no_loops :
      (conn now : ℕ) (answers : List Answer) (idle_fd : Option ℕ) (s : Server)
      → s.conn_loops ≡ []
      → do_accept (accepted conn now ∷ answers) idle_fd s ≡ fault
  unfolding do_accept get_next_loop
  no_loops conn now answers idle_fd s e = rw (do_accept, get_next_loop, e)

  -- A server without loops that is to have 1 to 64 threads, started, and then a connection that
  -- arrives with whatever follows it. If `ts_started`, which no constructor sets, was false, the connections are accepted and get the loops in turn;
  -- if it was true there are no loops, and the first connection uses a null one.
  pub start-Serves :
      (conn now : ℕ) (answers : List Answer) (idle_fd : Option ℕ) (s : Startup)
      → s.server.conn_loops ≡ []
      → s.server.next_loop ≡ negsuc 0
      → s.thread_num ≢ 0
      → s.thread_num ≤ max_num
      → (s1 : Startup) × (start new_loop s ≡ ok s1)
        × Serves s.started (accepted conn now ∷ answers) idle_fd s1.server
  unfolding start first_start
  start-Serves conn now answers idle_fd s empty new some_threads few = by_flag s.started refl
    where
      by_flag :
          (b : Bool)
          → s.started ≡ b
          → (s1 : Startup) × (start new_loop s ≡ ok s1)
            × Serves b (accepted conn now ∷ answers) idle_fd s1.server
      by_flag true e = (
        ask_to_listen s,
        rw e,
        rw (ask-server s) (no_loops conn now answers idle_fd s.server empty),
      )
      by_flag false e =
          let s1 : Startup =
            add_loops new_loop s.thread_num 0 (record s { started = true; timer_runs = true }) in
          let many =
            add_loops-length s.thread_num 0 (record s { started = true; timer_runs = true }) in
          (
            ask_to_listen s1,
            rw (e, le→leb _ _ few),
            rw (ask-server s1) (
                do_accept-Accepted (accepted conn now ∷ answers) 0 idle_fd s1.server
                  (λ e. some_threads (omega (arith, many, e, ap (length {A = ℕ}) empty)))
                  (rw (
                    add_loops-next s.thread_num 0 (record s { started = true; timer_runs = true }),
                    new,
                  ))),
          )
