-- ===== src/Net/Echo/Stream.antt =====
-- A connection that echoes, as a stream.
use high_performance_concurr.Base.{
  ap₂, ℕ, ◌+◌, ◌≤◌, ◌≡◌, ◌≢◌, refl, sym, ap, ◌∙◌, subst, Bool, true, false, none, some, List, [],
  ◌∷◌, ◌++◌, ok, arith, ◌⊎◌, inl, inr, length,
}
use high_performance_concurr.Memory.Bytes.{Bytes, slice, length-slice}
use high_performance_concurr.Memory.Store.{Mem, Grant, pure, ◌>>=◌}
use high_performance_concurr.Memory.Pool.{m_up}
use high_performance_concurr.Memory.Pool.Invariant.{
  Inv, Ensures, Ensures-bind, Ensures-bind_told, Ensures-map,
}
use high_performance_concurr.Memory.Buffer.{done}
use high_performance_concurr.Memory.Buffer.Room.{Owns, contents_of, live, head_of, NoChunk}
use high_performance_concurr.Net.Connection.{
  Connection, Effect, runs_message_cb, send, do_read, do_write,
}
use high_performance_concurr.Net.Connection.Answers.{Answers, left}
use high_performance_concurr.Net.Connection.Stream.{length-contents}
use high_performance_concurr.Net.Connection.Read.{DonePost, Ends, do_read-DonePost}
use high_performance_concurr.Net.Connection.Send.{SendPost, send-SendPost}
use high_performance_concurr.Net.Connection.History.{IsStreaming, call, Passed}
use high_performance_concurr.Net.Connection.History.Calls.{sent-Passed, writes-Passed}
use high_performance_concurr.Net.Connection.Stepwise.{
  Source, run_all, all_given, Orderly, RanOut, Acted, run_all-Passed,
}
use high_performance_concurr.Net.Echo.{
  Turn, arrives, flushes, take_message, echo_message_cb, after_input, turn,
}
use high_performance_concurr.Net.Echo.Message.{take_message-Taken}
use high_performance_concurr.Net.Echo.Input.{Same, none-Apart, Fresh, Received-Fresh, later-Same}

abbrev pub turn_given : Turn → List ℕ
turn_given (arrives src n) = slice src 0 n
turn_given (flushes ios) = []

-- Some bytes arrive, which do not take an output of `n` bytes past the largest class; the answers of
-- the kernel are as in `Answers`.
abbrev pub TurnFits : Turn → ℕ → Type 0
TurnFits (arrives src k) n = (k ≢ 0) × (k + n ≤ m_up)
TurnFits (flushes ios) n = Answers ios n

abbrev pub turn_left : Turn → ℕ → ℕ
turn_left (arrives src k) n = k + n
turn_left (flushes ios) n = left ios n

-- In a pool in good order there is no chunk of the class that the input needs; or there is one, the
-- message has been taken, and there is none of the class that the output needs.
abbrev pub NoneForTurn : (ℕ → Grant) → Turn → Connection → Mem → Type 0
NoneForTurn sys (arrives src n) conn m =
    ((free : ℕ → List ℕ) × (held : ℕ → Bool) × Inv m free held
      × NoChunk sys m free (n + live m.heap conn.ibuf))
    ⊎ ((r : Connection × List Effect) × (m1 : Mem) × (do_read sys (some n) src (done n) conn m
          ≡ ok (r, m1))
        × (t : Connection × Bytes × ℕ) × (m2 : Mem) × (take_message r.0 m1 ≡ ok (t, m2))
        × (free : ℕ → List ℕ) × (held : ℕ → Bool) × Inv m2 free held
        × NoChunk sys m2 free (n + live m2.heap t.0.obuf))
NoneForTurn sys (flushes ios) conn m = ⊥

abbrev pub echo_of : (ℕ → Grant) → Source
echo_of sys = record {
  Event = Turn;
  act = turn sys;
  given = turn_given;
  Fits = TurnFits;
  left = turn_left;
  Idle = λ conn. conn.ibuf ≡ none;
  Starved = NoneForTurn sys;
}

-- `send` leaves the input alone.
sent-ibuf :
    (m m' : Mem) (held : ℕ → Bool) (c : Connection) (text : Bytes) (n : ℕ)
    (r : Connection × Bool × List Effect)
    → SendPost m held c text n r m'
    → r.0.ibuf ≡ c.ibuf
sent-ibuf m m' held c text n (c', true, effects) post = ap Connection.ibuf post.1
sent-ibuf m m' held c text n (c', false, effects) post = ap Connection.ibuf post.0

module _ (sys : ℕ → Grant) {m : Mem} {free : ℕ → List ℕ} {held : ℕ → Bool} {w : Bool} (src : Bytes)
    (n : ℕ) (conn : Connection) (s : IsStreaming m free held conn.obuf w)
    (fits : TurnFits (arrives src n) (live m.heap conn.obuf)) where
  abbrev Goal : Connection × List ℕ × List Effect → Mem → Type 0
  Goal = Acted (echo_of sys) m conn w (arrives src n)

  sending :
      {m2 : Mem} {free2 : ℕ → List ℕ} {held2 : ℕ → Bool} (c : Connection)
      → Inv m2 free2 held2
      → Same m m2 held2 conn.obuf
      → c.obuf ≡ conn.obuf
      → IsStreaming m2 free2 held2 c.obuf w
  sending {m2} {held2 = held2} c v h out = record {
    inv = v;
    owns = subst (Owns held2) (sym out) h.owns;
    front = ap (head_of m2.heap) out ∙ h.front ∙ s.front;
    watching = elim s.watching [
      | inl e ↦ inl (ap (live m2.heap) out ∙ h.many ∙ e)
      | inr on ↦ inr on
    ];
  }

  sent-Acted :
      {m2 : Mem} {free2 : ℕ → List ℕ} {held2 : ℕ → Bool} (text : Bytes) (c : Connection)
      → Inv m2 free2 held2
      → Same m m2 held2 conn.obuf
      → c.obuf ≡ conn.obuf
      → c.ibuf ≡ none
      → slice text 0 n ≡ slice src 0 n
      → (r : Connection × Bool × List Effect) (m3 : Mem) → SendPost m2 held2 c text n r m3
      → Goal (r.0, [], runs_message_cb ∷ r.2) m3
  sent-Acted {m2} {held2 = held2} text c v h out null same_text r m3 post =
      let room : n + live m2.heap c.obuf ≤ m_up =
        omega (arith, fits.1, ap (live m2.heap) out, h.many) in
      let (p, many) = sent-Passed sys text n c (sending c v h out) room r m3 post in
      (
        record {
          free' = p.free';
          held' = p.held';
          streaming = p.streaming;
          order = p.order ∙ ap₂ ◌++◌ (ap (contents_of m2.heap) out ∙ h.bytes) same_text;
        },
        sent-ibuf m2 m3 held2 c text n r post ∙ null,
        many ∙ ap (λ k. n + k) (ap (live m2.heap) out ∙ h.many),
      )

  echo-Acted :
      (r : Connection × List Effect) (m1 : Mem)
      → do_read sys (some n) src (done n) conn m ≡ ok (r, m1)
      → Fresh m conn (slice src 0 n) r m1
      → Ensures (NoneForTurn sys (arrives src n) conn m) Goal (after_input sys r m1)
  unfolding after_input echo_message_cb
  echo-Acted r m1 ran h =
      let X : Type 0 = NoneForTurn sys (arrives src n) conn m in
      let t = take_message-Taken h.inv h.a r.0 h.owned h.there in
      let c : Connection = record r.0 { ibuf = none } in
      let all : t.len ≡ n =
        t.many
        ∙ sym (length-contents h.a m1.heap)
        ∙ ap (length {A = ℕ}) h.bytes
        ∙ length-slice src 0 n in
      let taken : take_message r.0 m1 ≡ ok ((c, t.text, n), t.after) =
        t.result ∙ ap (λ k. ok ((c, t.text, k), t.after)) all in
      let text : slice t.text 0 n ≡ slice src 0 n =
        ap (slice t.text 0) (sym all) ∙ t.message ∙ h.bytes in
      let same = later-Same h.a conn.obuf h.same h.apart t.others in
      let st = sending c t.inv same h.output in
      let room : n + live t.after.heap c.obuf ≤ m_up =
        omega (arith, fits.1, ap (live t.after.heap) h.output, same.many) in
      let P : Connection × List Effect → Mem → Type 0 = λ q m3. Goal (q.0, [], r.1 ++ q.1) m3 in
      let Sent = SendPost t.after t.held' c t.text n in
      let N : Type 0 = NoChunk sys t.after t.free' (n + live t.after.heap c.obuf) in
      rw (after_input, h.effect, echo_message_cb, ◌>>=◌, taken)
        (Ensures-bind X P Goal (send sys t.text n c >>= λ q. pure (q.0, q.2))
          (λ q. pure (q.0, [], r.1 ++ q.1)) t.after
          (Ensures-bind X Sent P (send sys t.text n c) (λ q. pure (q.0, q.2)) t.after
            (Ensures-map N X Sent Sent (send sys t.text n c t.after)
              (λ none_there.
                inr
                  (r, m1, ran, (c, t.text, n), t.after, taken, t.free', t.held', t.inv, none_there))
              (λ q m3 x. x)
              (send-SendPost t.inv sys t.text n c st.owns st.front (omega (arith, room))))
            (λ q m3 post.
              subst (λ es. Goal (q.0, [], es ++ q.2) m3) (sym h.effect)
                (sent-Acted t.text c t.inv same h.output refl text q m3 post)))
          (λ q m3 g. g))

not_ended : (n k : ℕ) → n ≢ 0 → n + k ≤ m_up → Ends n k (done n) → ⊥
not_ended n k some_came room (inl full) = omega (arith, room, full)
not_ended n k some_came room (inr (inl ended)) = some_came (cc ended)
not_ended n k some_came room (inr (inr failure)) = failure

module _ (sys : ℕ → Grant) where
  turn-Acted :
      (e : Turn) (conn : Connection) (m : Mem) (free : ℕ → List ℕ) (held : ℕ → Bool) (w : Bool)
      → IsStreaming m free held conn.obuf w
      → conn.ibuf ≡ none
      → TurnFits e (live m.heap conn.obuf)
      → Ensures (NoneForTurn sys e conn m) (Acted (echo_of sys) m conn w e) (turn sys e conn m)
  unfolding turn call
  turn-Acted (arrives src n) conn m free held w s idle fits =
      let X : Type 0 = NoneForTurn sys (arrives src n) conn m in
      let P = DonePost m held conn n src (done n) in
      let none_held : live m.heap conn.ibuf ≡ 0 = ap (live m.heap) idle in
      Ensures-bind_told X P (Acted (echo_of sys) m conn w (arrives src n))
        (do_read sys (some n) src (done n) conn) (after_input sys) m
        (Ensures-map (NoChunk sys m free (n + live m.heap conn.ibuf)) X P P
          (do_read sys (some n) src (done n) conn m)
          (λ none_there. inl (free, held, s.inv, none_there)) (λ r m1 x. x)
          (do_read-DonePost sys m free held n src (done n) conn s.inv
            (subst (Owns held) (sym idle) tt) s.owns (none-Apart conn.obuf conn.ibuf idle)
            (ap (head_of m.heap) idle) (omega (arith, fits.1, none_held)) (inr refl)))
        (λ r m1 ran post. elim post [
          | inl g ↦ echo-Acted sys src n conn s fits r m1 ran (Received-Fresh idle s.owns r m1 g)
          | inr (_, why) ↦
              absurd
                (not_ended n (live m.heap conn.ibuf) fits.0 (omega (arith, fits.1, none_held)) why)
        ])
  turn-Acted (flushes ios) conn m free held w s idle answers =
      Ensures-map ⊥ ⊥ _ _ (do_write ios conn m) (λ x. x)
        (λ r m' (p, same, many). (p, ap Connection.ibuf same ∙ idle, many))
        (writes-Passed sys ⊥ ios conn s answers)

  -- A connection with the callback of the echo server, whose input buffer is null, whose output buffer
  -- begins at offset 0, and for which the loop watches for output if there is any, under any input, of
  -- which none takes the output past the largest class, and any calls of `do_write`, with answers of
  -- the kernel of which none is an error or takes more than it was offered. What went to the kernel and
  -- what is left to write make up what there was to write and the bytes that arrived, in order; and
  -- the loop still watches for output if any is left. The pool stays in good order, the program stops
  -- only where it is exhausted, and never faults.
  pub echo_is_stream :
      (es : List Turn) (conn : Connection) (m : Mem) (free : ℕ → List ℕ) (held : ℕ → Bool)
      (w : Bool)
      → IsStreaming m free held conn.obuf w
      → conn.ibuf ≡ none
      → Orderly (echo_of sys) es (live m.heap conn.obuf)
      → Ensures
          (RanOut (echo_of sys) es conn m)
          (Passed m conn w (all_given (echo_of sys) es))
          (run_all (echo_of sys) es conn m)
  echo_is_stream es conn m free held w s idle orderly =
      run_all-Passed (echo_of sys) turn-Acted es conn m free held w s idle orderly
