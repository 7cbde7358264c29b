-- ===== src/Net/Connection/History/Output.antt =====
-- The output of a connection as one stream.
use high_performance_concurr.Base.{ℕ, ◌+◌, ◌≤◌, Bool, List, []}
use high_performance_concurr.Memory.Bytes.{slice}
use high_performance_concurr.Memory.Store.{Mem, Grant}
use high_performance_concurr.Memory.Pool.{m_up}
use high_performance_concurr.Memory.Pool.Invariant.{Inv, Ensures, Ensures-map}
use high_performance_concurr.Memory.Buffer.Room.{live, NoChunk}
use high_performance_concurr.Net.Connection.{Connection}
use high_performance_concurr.Net.Connection.Answers.{Answers, left}
use high_performance_concurr.Net.Connection.History.{Call, sends, writes, IsStreaming, call, Passed}
use high_performance_concurr.Net.Connection.History.Calls.{sends-Passed, writes-Passed}
use high_performance_concurr.Net.Connection.Stepwise.{
  Source, run_all, all_given, Orderly, RanOut, Acted, run_all-Passed,
}

-- The bytes that a call of `send` is given.
abbrev pub call_given : Call → List ℕ
call_given (sends src len) = slice src 0 len
call_given (writes ios) = []

-- No call of `send` takes an output of `n` bytes past the largest class, and the answers of the
-- kernel are as in `Answers`.
abbrev pub CallFits : Call → ℕ → Type 0
CallFits (sends src len) n = len + n ≤ m_up
CallFits (writes ios) n = Answers ios n

abbrev pub call_left : Call → ℕ → ℕ
call_left (sends src len) n = len + n
call_left (writes ios) n = left ios n

-- There is no chunk of the class that a call of `send` needs, in a pool in good order.
abbrev pub NoneForCall : (ℕ → Grant) → Call → Connection → Mem → Type 0
NoneForCall sys (sends src len) conn m =
    (free : ℕ → List ℕ) × (held : ℕ → Bool) × Inv m free held
    × NoChunk sys m free (len + live m.heap conn.obuf)
NoneForCall sys (writes ios) conn m = ⊥

-- Calls of `send` and `do_write`.
abbrev pub calls_of : (ℕ → Grant) → Source
calls_of sys = record {
  Event = Call;
  act = call sys;
  given = call_given;
  Fits = CallFits;
  left = call_left;
  Idle = λ conn. Unit {0};
  Starved = NoneForCall sys;
}

module _ (sys : ℕ → Grant) where
  call-Acted :
      (c : Call) (conn : Connection) (m : Mem) (free : ℕ → List ℕ) (held : ℕ → Bool) (w : Bool)
      → IsStreaming m free held conn.obuf w
      → Unit {0}
      → CallFits c (live m.heap conn.obuf)
      → Ensures (NoneForCall sys c conn m) (Acted (calls_of sys) m conn w c) (call sys c conn m)
  call-Acted (sends src len) conn m free held w s idle room =
      Ensures-map (NoChunk sys m free (len + live m.heap conn.obuf))
        (NoneForCall sys (sends src len) conn m) _ _ (call sys (sends src len) conn m)
        (λ none_there. (free, held, s.inv, none_there)) (λ r m' (p, many). (p, tt, many))
        (sends-Passed sys src len conn s room)
  call-Acted (writes ios) conn m free held w s idle answers =
      Ensures-map ⊥ ⊥ _ _ (call sys (writes ios) conn m) (λ x. x)
        (λ r m' (p, _, many). (p, tt, many)) (writes-Passed sys ⊥ ios conn s answers)

  -- A connection whose output buffer begins at offset 0 and for which the loop watches for output if
  -- there is any, under any calls of `send` and `do_write` of which none takes the output past the
  -- largest class, and with answers of the kernel of which none is an error or takes more than it was
  -- offered. What the kernel got over all of them and what is left to write make up what there was to
  -- write and what the calls of `send` were given, in order; and the loop still watches for output
  -- if any is left. The pool stays in good order. The program stops only where a call of `send` finds
  -- the pool exhausted, and never faults.
  pub output_is_stream :
      (cs : List Call) (conn : Connection) (m : Mem) (free : ℕ → List ℕ) (held : ℕ → Bool)
      (w : Bool)
      → IsStreaming m free held conn.obuf w
      → Orderly (calls_of sys) cs (live m.heap conn.obuf)
      → Ensures
          (RanOut (calls_of sys) cs conn m)
          (Passed m conn w (all_given (calls_of sys) cs))
          (run_all (calls_of sys) cs conn m)
  output_is_stream cs conn m free held w s orderly =
      run_all-Passed (calls_of sys) (call-Acted) cs conn m free held w s tt orderly
