-- ===== src/Net/Acceptor/Batch.antt =====
-- A run of `do_accept`.
use native.Mathlib.Nat.{mod-lt, mod-add-mod}
use high_performance_concurr.Base.{
  ℕ, ◌+◌, ◌%◌, ◌≡◌, ◌≢◌, refl, sym, ap, ap₂, ◌∙◌, Option, some, List, [], ◌∷◌, ◌++◌, map,
  append-nil, append_assoc, arith, length, Outcome, ok, ◌>>=◌,
}
use high_performance_concurr.Log.Queue.{pos}
use high_performance_concurr.Log.Queue.Ring.{ring}
use high_performance_concurr.Base.{get_elem?_inside}
use high_performance_concurr.Net.Server.{Server, add_new_tcp_conn}
use high_performance_concurr.Net.Server.RoundRobin.{IsAt, step_lem}
use high_performance_concurr.Net.Acceptor.{
  Answer, accepted, eintr, emfile, eagain, other, FdCall, closes, takes, opens, use_idle, do_accept,
}

-- The connections that the first `accept` of a turn of the loop brings, up to EAGAIN.
abbrev pub arrived : List Answer → List ℕ
arrived [] = []
arrived (accepted conn now ∷ answers) = conn ∷ arrived answers
arrived (eintr ∷ answers) = arrived answers
arrived (emfile taken opened ∷ answers) = arrived answers
arrived (eagain ∷ answers) = []
arrived (other ∷ answers) = arrived answers

-- What the second `accept`, on EMFILE, brings, up to EAGAIN: connections that are closed at once.
abbrev pub turned_away : List Answer → List (Option ℕ)
turned_away [] = []
turned_away (accepted conn now ∷ answers) = turned_away answers
turned_away (eintr ∷ answers) = turned_away answers
turned_away (emfile taken opened ∷ answers) = taken ∷ turned_away answers
turned_away (eagain ∷ answers) = []
turned_away (other ∷ answers) = turned_away answers

-- What calls took with the second `accept`, in order.
abbrev pub taken_fds : List FdCall → List (Option ℕ)
taken_fds [] = []
taken_fds (closes fd ∷ calls) = taken_fds calls
taken_fds (takes fd ∷ calls) = fd ∷ taken_fds calls
taken_fds (opens fd ∷ calls) = taken_fds calls

-- The descriptors that calls closed, and those that they got, in order.
abbrev pub closed : List FdCall → List (Option ℕ)
closed [] = []
closed (closes fd ∷ calls) = fd ∷ closed calls
closed (takes fd ∷ calls) = closed calls
closed (opens fd ∷ calls) = closed calls

abbrev pub obtained : List FdCall → List (Option ℕ)
obtained [] = []
obtained (closes fd ∷ calls) = obtained calls
obtained (takes fd ∷ calls) = fd ∷ obtained calls
obtained (opens fd ∷ calls) = fd ∷ obtained calls

-- What a run leaves: the second `accept` took what EMFILE's answers bring, and the idle descriptor and
-- all that were taken or opened have been closed, in this order, but the last, which is the idle one
-- now; the server knows each connection of the first `accept`, in order, and none else beside those
-- it knew, and these connections have the loops in turn, from the index `i` on.
pub record Accepted (answers : List Answer) (i : ℕ) (idle_fd : Option ℕ) (s : Server)
    (r : Outcome (Server × List (ℕ × ℕ) × Option ℕ × List FdCall)) : Type 0 where
  pub after : Server
  pub made : List (ℕ × ℕ)
  pub idle_fd' : Option ℕ
  pub calls : List FdCall
  pub result : r ≡ ok (after, made, idle_fd', calls)
  pub dropped : taken_fds calls ≡ turned_away answers
  pub no_leak : idle_fd ∷ obtained calls ≡ closed calls ++ (idle_fd' ∷ [])
  pub known : after.connections ≡ s.connections ++ arrived answers
  pub all_made : map (λ p. p.0) made ≡ arrived answers
  pub in_turn :
      map (λ p. some p.1) made
      ≡ ring s.conn_loops (length s.conn_loops) i (length (arrived answers))

add_new-connections :
    (now conn : ℕ) (s : Server)
    → (add_new_tcp_conn now conn s).connections ≡ s.connections ++ (conn ∷ [])
unfolding add_new_tcp_conn
add_new-connections now conn s = refl

add_new-loops :
    (now conn : ℕ) (s : Server) → (add_new_tcp_conn now conn s).conn_loops ≡ s.conn_loops
unfolding add_new_tcp_conn
add_new-loops now conn s = refl

add_new-next : (now conn : ℕ) (s : Server) → (add_new_tcp_conn now conn s).next_loop ≡ s.next_loop
unfolding add_new_tcp_conn
add_new-next now conn s = refl

nothing_left :
    (answers : List Answer) (i : ℕ) (idle_fd : Option ℕ) (s : Server)
    → arrived answers ≡ []
    → turned_away answers ≡ []
    → do_accept answers idle_fd s ≡ ok (s, [], idle_fd, [])
    → Accepted answers i idle_fd s (do_accept answers idle_fd s)
nothing_left answers i idle_fd s none_arrived none_dropped ran = record {
  after = s;
  made = [];
  idle_fd' = idle_fd;
  calls = [];
  result = ran;
  dropped = sym none_dropped;
  no_leak = refl;
  known = sym (append-nil s.connections) ∙ ap (λ cs. s.connections ++ cs) (sym none_arrived);
  all_made = sym none_arrived;
  in_turn = rw none_arrived;
}

-- An answer that brings nothing.
passed_over :
    (a : Answer) (answers : List Answer) (i : ℕ) (idle_fd : Option ℕ) (s : Server)
    → arrived (a ∷ answers) ≡ arrived answers
    → turned_away (a ∷ answers) ≡ turned_away answers
    → do_accept (a ∷ answers) idle_fd s ≡ do_accept answers idle_fd s
    → Accepted answers i idle_fd s (do_accept answers idle_fd s)
    → Accepted (a ∷ answers) i idle_fd s (do_accept (a ∷ answers) idle_fd s)
passed_over a answers i idle_fd s none_arrived none_dropped same t = record {
  after = t.after;
  made = t.made;
  idle_fd' = t.idle_fd';
  calls = t.calls;
  result = same ∙ t.result;
  dropped = t.dropped ∙ sym none_dropped;
  no_leak = t.no_leak;
  known = t.known ∙ ap (λ cs. s.connections ++ cs) (sym none_arrived);
  all_made = t.all_made ∙ sym none_arrived;
  in_turn = rw none_arrived t.in_turn;
}

-- `do_accept`, on a server that has loops and whose last loop had the index `i - 1` in the cycle,
-- does not fault, and makes each connection that the first `accept` of a turn brings before EAGAIN, in
-- order, gives these the loops in turn, and has the server know each, whatever errors come between.
-- What the second `accept`, on EMFILE, brings is taken, is not made a connection, and is closed:
-- every descriptor that it took or opened for that, and the idle one of before, is closed but the last
-- one, which is the idle one now.
pub do_accept-Accepted :
    (answers : List Answer) (i : ℕ) (idle_fd : Option ℕ) (s : Server)
    → length s.conn_loops ≢ 0
    → IsAt s i
    → Accepted answers i idle_fd s (do_accept answers idle_fd s)
unfolding do_accept add_new_tcp_conn use_idle
do_accept-Accepted [] i idle_fd s some_loops at = nothing_left [] i idle_fd s refl refl refl
do_accept-Accepted (eagain ∷ answers) i idle_fd s some_loops at =
    nothing_left (eagain ∷ answers) i idle_fd s refl refl refl
do_accept-Accepted (eintr ∷ answers) i idle_fd s some_loops at =
    passed_over eintr answers i idle_fd s refl refl refl
      (do_accept-Accepted answers i idle_fd s some_loops at)
do_accept-Accepted (other ∷ answers) i idle_fd s some_loops at =
    passed_over other answers i idle_fd s refl refl refl
      (do_accept-Accepted answers i idle_fd s some_loops at)
do_accept-Accepted (emfile taken opened ∷ answers) i idle_fd s some_loops at =
    let t = do_accept-Accepted answers i opened s some_loops at in
    record {
      after = t.after;
      made = t.made;
      idle_fd' = t.idle_fd';
      calls = closes idle_fd ∷ takes taken ∷ closes taken ∷ opens opened ∷ t.calls;
      result = rw (t.result, ◌>>=◌);
      dropped = ap (λ fds. taken ∷ fds) t.dropped;
      no_leak = ap (λ fds. idle_fd ∷ taken ∷ fds) t.no_leak;
      known = t.known;
      all_made = t.all_made;
      in_turn = t.in_turn;
    }
do_accept-Accepted (accepted conn now ∷ answers) i idle_fd s some_loops at =
    let size : ℕ = length s.conn_loops in
    let (x, item) = get_elem?_inside s.conn_loops (i % size) (mod-lt i (omega arith)) in
    let s1 : Server = record s { next_loop = pos (i % size) } in
    let t =
      do_accept-Accepted answers (i + 1) idle_fd (add_new_tcp_conn now conn s1) some_loops
        (ap pos (mod-add-mod i size 1)) in
    record {
      after = t.after;
      made = (conn, x) ∷ t.made;
      idle_fd' = t.idle_fd';
      calls = t.calls;
      result = rw (step_lem s i x some_loops at item, ◌>>=◌, t.result, ◌>>=◌);
      dropped = t.dropped;
      no_leak = t.no_leak;
      known = t.known ∙ append_assoc s.connections (conn ∷ []) (arrived answers);
      all_made = ap (λ cs. conn ∷ cs) t.all_made;
      in_turn = ap₂ ◌∷◌ (sym item) t.in_turn;
    }
