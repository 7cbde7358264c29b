-- ===== src/Net/Acceptor.antt =====
-- net/acceptor.cpp: `do_accept`, which runs on the answers of `accept`. Logging, and what a new
-- connection does on its loop, are left out.
pub mod Batch
use high_performance_concurr.Base.{
  ℕ, Option, none, some, List, [], ◌∷◌, ◌++◌, Outcome, ok, fault, ◌>>=◌,
}
use high_performance_concurr.Net.Server.{Server, get_next_loop, add_new_tcp_conn}

-- An answer of `accept`: a connection, which is made at an address, with what the clock shows when
-- its timer starts; or an error. With EMFILE come the answers of the second `accept` and of `open`,
-- none for -1.
pub data Answer : Type 0 where
  accepted : ℕ → ℕ → Answer
  eintr : Answer
  emfile : Option ℕ → Option ℕ → Answer
  eagain : Answer
  other : Answer

-- A call of `close`, of the second `accept` or of `open`, with the descriptor.
pub data FdCall : Type 0 where
  closes : Option ℕ → FdCall
  takes : Option ℕ → FdCall
  opens : Option ℕ → FdCall

-- What EMFILE does with `ac_idle_fd`: the descriptor behind it, and the calls.
unfoldable pub use_idle : Option ℕ → Option ℕ → Option ℕ → Option ℕ × List FdCall
use_idle idle_fd taken opened =
    (opened, closes idle_fd ∷ takes taken ∷ closes taken ∷ opens opened ∷ [])

-- `conn->add_task()` uses the loop, which may be null.
abbrev pub need_loop : Option ℕ → Outcome ℕ
need_loop none = fault
need_loop (some loop) = ok loop

-- `do_accept`: the server, the connections that it makes, each with its loop, and the idle descriptor
-- and the calls on it. On EMFILE that is closed, takes the next connection, which is closed, and is
-- opened again, and the loop goes on. The answers end where the loop is left, or are all used up.
unfoldable pub do_accept :
    List Answer → Option ℕ → Server → Outcome (Server × List (ℕ × ℕ) × Option ℕ × List FdCall)
unfolding use_idle
do_accept [] idle_fd s = ok (s, [], idle_fd, [])
do_accept (accepted conn now ∷ answers) idle_fd s = do
  r ← get_next_loop s
  loop ← need_loop r.1
  rest ← do_accept answers idle_fd (add_new_tcp_conn now conn r.0)
  ok (rest.0, (conn, loop) ∷ rest.1, rest.2, rest.3)
do_accept (eintr ∷ answers) idle_fd s = do_accept answers idle_fd s
do_accept (emfile taken opened ∷ answers) idle_fd s = do
  let idle = use_idle idle_fd taken opened
  rest ← do_accept answers idle.0 s
  ok (rest.0, rest.1, rest.2, idle.1 ++ rest.3)
do_accept (eagain ∷ answers) idle_fd s = ok (s, [], idle_fd, [])
do_accept (other ∷ answers) idle_fd s = do_accept answers idle_fd s
