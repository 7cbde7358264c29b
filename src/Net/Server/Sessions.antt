-- ===== src/Net/Server/Sessions.antt =====
-- Connections, their timers, and the list that keeps them.
use high_performance_concurr.Base.{
  ℕ, suc, ◌+◌, ◌≡◌, false, List, [], ◌∷◌, ◌++◌, arith, length, ◌==◌, if◌then◌else◌,
}
use high_performance_concurr.Timer.Schedule
use high_performance_concurr.Timer.Schedule.{Timer, after_node}
use high_performance_concurr.Timer.Tick.{Event, cancels, draws, enters, pushes}
use high_performance_concurr.Net.Server.{
  Server, add_new_tcp_conn, update_conn_timeout_time, do_clean, erase_first,
}

-- How often a connection is in a list.
abbrev pub copies : ℕ → List ℕ → ℕ
copies conn [] = 0
copies conn (c ∷ cs) = if c == conn then suc (copies conn cs) else copies conn cs

copies-append :
    (conn : ℕ) (xs ys : List ℕ) → copies conn (xs ++ ys) ≡ copies conn xs + copies conn ys
copies-append conn [] ys = omega arith
copies-append conn (x ∷ xs) ys = ground (arith, copies-append conn xs ys)

copies-erase_first :
    (conn n : ℕ) (xs : List ℕ) → copies conn xs ≡ suc n → copies conn (erase_first conn xs) ≡ n
copies-erase_first conn n [] e = absurd (omega (arith, e))
copies-erase_first conn n (x ∷ xs) e = ground (arith, copies-erase_first conn n xs)

-- A connection that sends messages at the times of a list.
abbrev pub messages : ℕ → List ℕ → Server → Server
messages conn [] s = s
messages conn (now ∷ times) s = messages conn times (update_conn_timeout_time now conn s)

copies-add :
    (now conn : ℕ) (s : Server)
    → copies conn (add_new_tcp_conn now conn s).connections ≡ suc (copies conn s.connections)
unfolding add_new_tcp_conn
copies-add now conn s = ground (arith, copies-append conn s.connections (conn ∷ []))

copies-update :
    (now conn : ℕ) (s : Server)
    → copies conn (update_conn_timeout_time now conn s).connections
      ≡ suc (copies conn s.connections)
unfolding update_conn_timeout_time
copies-update now conn s =
    copies-add now conn (record s { timer = Schedule.cancel (s.timer_id conn) s.timer })

copies-messages :
    (conn : ℕ) (times : List ℕ) (s : Server)
    → copies conn (messages conn times s).connections ≡ length times + copies conn s.connections
copies-messages conn [] s = omega arith
copies-messages conn (now ∷ times) s = omega (
  arith,
  copies-messages conn times (update_conn_timeout_time now conn s),
  copies-update now conn s,
)

-- A connection that the server does not know is accepted, sends messages, and is closed: the list
-- keeps as many copies of it as it has sent messages.
pub closed_is_kept :
    (now conn : ℕ) (times : List ℕ) (s : Server)
    → copies conn s.connections ≡ 0
    → copies conn (do_clean conn (messages conn times (add_new_tcp_conn now conn s))).connections
      ≡ length times
unfolding do_clean
closed_is_kept now conn times s new =
    copies-erase_first conn (length times) _ (
      omega
        (arith, copies-messages conn times (add_new_tcp_conn now conn s), copies-add now conn s))

-- What `update_conn_timeout_time` does to the timer, as steps of the tick thread's machine.
abbrev pub update_steps : ℕ → ℕ → Server → List (Event ℕ)
update_steps now conn s =
    cancels (s.timer_id conn)
    ∷ draws (after_node now s.timeout_ms false conn)
    ∷ enters 0
    ∷ pushes 0
    ∷ []
