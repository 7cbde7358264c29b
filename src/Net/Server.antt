-- ===== src/Net/Server.antt =====
-- net/tcp_server.h, net/tcp_server.cpp: `TcpServer`. A connection and a loop are addresses; the
-- callback of a connection's timer closes that connection, so it is the connection.
pub mod RoundRobin
pub mod Sessions
pub mod Start
pub mod Twice
pub mod Setup
use mathlib.Core.Logic.{ite}
use high_performance_concurr.Base.{
  ℕ, Bool, true, false, Option, none, some, List, [], ◌∷◌, ◌++◌, ◌==◌, if◌then◌else◌, ℕ_discrete,
  length, Outcome, ok, ◌>>=◌,
}
use high_performance_concurr.Memory.Store.{update}
use high_performance_concurr.Log.Queue.{ℤ, pos, negsuc, next_index, read_at}
use high_performance_concurr.Timer.Schedule
use high_performance_concurr.Timer.Schedule.{Timer}

-- `timer_id` is the field `tc_timer_id` of each connection.
pub record Server : Type 0 where
  pub conn_loops : List ℕ
  pub next_loop : ℤ
  pub timer : Timer ℕ
  pub timeout_ms : ℕ
  pub timer_id : ℕ → ℕ
  pub connections : List ℕ

-- The loop of the next connection, none for null.
unfoldable pub get_next_loop : Server → Outcome (Server × Option ℕ)
get_next_loop s = if length s.conn_loops == 0 then ok (s, none) else (do
  let next = next_index s.next_loop (length s.conn_loops)
  loop ← read_at s.conn_loops next
  ok (record s { next_loop = next }, some loop))

-- `now` is what the clock shows in `run_after`.
unfoldable pub add_new_tcp_conn : ℕ → ℕ → Server → Server
add_new_tcp_conn now conn s =
    let (timer, id) = Schedule.run_after now s.timeout_ms false conn s.timer in
    record s {
      timer = timer;
      timer_id = update s.timer_id conn id;
      connections = s.connections ++ (conn ∷ []);
    }

unfoldable pub update_conn_timeout_time : ℕ → ℕ → Server → Server
unfolding add_new_tcp_conn
update_conn_timeout_time now conn s =
    add_new_tcp_conn now conn (record s { timer = Schedule.cancel (s.timer_id conn) s.timer })

-- The first occurrence is erased.
abbrev pub erase_first : ℕ → List ℕ → List ℕ
erase_first conn [] = []
erase_first conn (c ∷ cs) = ite (ℕ_discrete c conn) cs (c ∷ erase_first conn cs)

unfoldable pub do_clean : ℕ → Server → Server
do_clean conn s = record s { connections = erase_first conn s.connections }
