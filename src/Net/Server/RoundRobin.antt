-- ===== src/Net/Server/RoundRobin.antt =====
-- The loops take connections in turn.
use high_performance_concurr.Base.{
  ℕ, zero, suc, ◌+◌, ◌%◌, ◌≡◌, ◌≢◌, refl, ap, false, Option, some, List, [], ◌∷◌, arith, length,
  get_elem?, Outcome, ok, ◌>>=◌, ◌==◌,
}
use native.Mathlib.Nat.{mod-lt, mod-add-mod}
use high_performance_concurr.Log.Queue.Ring.{ring}
use high_performance_concurr.Base.{get_elem?_inside}
use high_performance_concurr.Log.Queue.{pos, negsuc, next_index, read_at}
use high_performance_concurr.Net.Server.{Server, get_next_loop}

-- The results of a number of calls.
abbrev pub next_loops : ℕ → Server → Outcome (List (Option ℕ))
next_loops zero s = ok []
next_loops (suc k) s = do r ← get_next_loop s; rest ← next_loops k r.0; ok (r.1 ∷ rest)

-- The last loop that was given out was the one of index `i - 1`, in the cycle.
abbrev pub IsAt : Server → ℕ → Type 0
IsAt s i = next_index s.next_loop (length s.conn_loops) ≡ pos (i % length s.conn_loops)

read_lem : (xs : List ℕ) (i x : ℕ) → get_elem? xs i ≡ some x → read_at xs (pos i) ≡ ok x
read_lem xs i x item = rw (read_at, item)

pub step_lem :
    (s : Server) (i x : ℕ)
    → length s.conn_loops ≢ 0
    → IsAt s i
    → get_elem? s.conn_loops (i % length s.conn_loops) ≡ some x
    → get_next_loop s ≡ ok (record s { next_loop = pos (i % length s.conn_loops) }, some x)
unfolding get_next_loop
step_lem s i x some_loops at item =
    let not_zero : (length s.conn_loops == 0) ≡ false = ground arith in
    rw (not_zero, at, read_lem s.conn_loops (i % length s.conn_loops) x item)

calls_lem :
    (k i : ℕ) (s : Server)
    → length s.conn_loops ≢ 0
    → IsAt s i
    → next_loops k s ≡ ok (ring s.conn_loops (length s.conn_loops) i k)
calls_lem zero i s some_loops at = refl
calls_lem (suc k) i s some_loops at =
    let size : ℕ = length s.conn_loops in
    let (x, item) = get_elem?_inside s.conn_loops (i % size) (mod-lt i (omega arith)) in
    let s' : Server = record s { next_loop = pos (i % size) } in
    let rest = calls_lem k (i + 1) s' some_loops (ap pos (mod-add-mod i size 1)) in
    rw (step_lem s i x some_loops at item, rest, item)

-- The calls of `get_next_loop` on a new server that has loops give them out in turn, call `i` the
-- loop `i % size`, and none reads outside the vector.
pub next_loops_in_turn :
    (k : ℕ) (s : Server)
    → length s.conn_loops ≢ 0
    → s.next_loop ≡ negsuc 0
    → next_loops k s ≡ ok (ring s.conn_loops (length s.conn_loops) 0 k)
next_loops_in_turn k s some_loops new = calls_lem k 0 s some_loops (rw new)
