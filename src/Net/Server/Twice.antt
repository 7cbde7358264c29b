-- ===== src/Net/Server/Twice.antt =====
-- A connection that was closed is closed again when its timer is due.
use high_performance_concurr.Base.{
  ℕ, ◌+◌, ◌*◌, ◌≤◌, ◌≡◌, refl, ◌∙◌, Bool, true, false, none, List, [], ◌∷◌, ◌++◌, ok, arith,
  ℕ_discrete,
}
use high_performance_concurr.Timer.HashMap
use high_performance_concurr.Timer.Tick.Sleep.{due_round}
use high_performance_concurr.Timer.Schedule
use high_performance_concurr.Timer.Schedule.{
  IdState, Timer, Node, running, push, after_node, add_node, tick, round, fire, is_later, ns_per_ms,
}
use high_performance_concurr.Timer.Schedule.History.{posted}
use high_performance_concurr.Memory.Store.{Mem, M, pure, ◌>>=◌}
use high_performance_concurr.Memory.Pool.Invariant.{Inv}
use high_performance_concurr.Memory.Buffer.Room.{Owns}
use high_performance_concurr.Net.Connection.{
  Connection, Effect, runs_close_cb, unwatches, closes, cleans, do_close,
}
use high_performance_concurr.Net.Connection.Close.{Apart, do_close-Closed}
use high_performance_concurr.Net.Connection.Read.{shut}
use high_performance_concurr.Net.Server.{Server, add_new_tcp_conn, do_clean}

known_now :
    (id : ℕ) (m : HashMap.HashMap ℕ IdState)
    → HashMap.is_key_exist ℕ_discrete id (HashMap.emplace ℕ_discrete id running m) ≡ true
unfolding HashMap.is_key_exist
known_now id m = ground (arith, HashMap.find-emplace ℕ_discrete id id running m)

-- A timer with one node, which is due.
only_post :
    (now now' : ℕ) (s : Node ℕ) (t : Timer ℕ)
    → t.queue ≡ s ∷ []
    → t.on ≡ true
    → HashMap.is_key_exist ℕ_discrete s.id t.states ≡ true
    → s.tm_point ≤ now
    → posted (tick now now' t).1 ≡ (s.id, s.callback) ∷ []
unfolding tick
only_post now now' s t only on known due =
    let said = due_round now now' s [] t.queue t only due in simp on (said ∙ simp known refl)

-- `do_close` where the peer has closed, and later `active_close`, which the timer's callback calls.
abbrev pub close_again : Connection → M (Connection × List Effect)
close_again conn = do r ← do_close conn; again ← do_close r.0; pure (again.0, r.1 ++ again.1)

-- A connection is accepted by a server that has no other timer, and is closed, which has the server
-- forget it. Once its time has come, the tick thread posts its callback all the same, and that closes
-- the connection, which has no descriptor any more, again: the close callback runs a second time, and
-- the loop and `close` get the descriptor -1.
pub closes_twice :
    (now now1 now2 id : ℕ) (s : Server) (conn : Connection) (m : Mem) (free : ℕ → List ℕ)
    (held : ℕ → Bool)
    → s.timer.queue ≡ []
    → s.timer.on ≡ true
    → now + s.timeout_ms * ns_per_ms ≤ now1
    → conn.has_close_cb ≡ true
    → Inv m free held
    → Owns held conn.ibuf
    → Owns held conn.obuf
    → Apart conn.obuf conn.ibuf
    → (posted (tick now1 now2 (do_clean id (add_new_tcp_conn now id s)).timer).1
        ≡ (s.timer.next_id, id) ∷ [])
      × ((m' : Mem) × (close_again conn m
            ≡ ok (
              (
                shut conn,
                runs_close_cb
                    ∷ unwatches conn.fd
                    ∷ closes conn.fd
                    ∷ cleans
                    ∷ runs_close_cb
                    ∷ unwatches none
                    ∷ closes none
                    ∷ cleans
                    ∷ [],
              ),
              m',
            )))
unfolding do_clean add_new_tcp_conn Schedule.run_after add_node push
closes_twice now now1 now2 id s conn m free held empty on due has_cb v owns_i owns_o apart =
    let first = do_close-Closed v conn owns_i owns_o apart in
    let again = do_close-Closed first.inv (shut conn) tt tt tt in
    (
      only_post now1 now2 (record (after_node now s.timeout_ms false id) { id = s.timer.next_id })
          (do_clean id (add_new_tcp_conn now id s)).timer (rw (push, empty) refl) on
          (known_now s.timer.next_id s.timer.states) due,
      (again.after, rw (first.result, ◌>>=◌, again.result, has_cb)),
    )
