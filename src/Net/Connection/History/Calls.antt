-- ===== src/Net/Connection/History/Calls.antt =====
-- One call of `send` or of `do_write`.
use high_performance_concurr.Base.{
  ℕ, ◌+◌, ◌≤◌, ◌≡◌, refl, sym, ap, ◌∙◌, subst, Bool, true, false, none, some, List, [], ◌∷◌,
  append-nil, length, length-append, ok, arith, Bool-cases, Option-cases, ◌⊎◌, inl, inr, ◌==◌,
  if◌then◌else◌,
}
use high_performance_concurr.Memory.Bytes.{Bytes, slice, length-slice}
use high_performance_concurr.Memory.Store.{Mem, Grant, pure, ◌>>=◌}
use high_performance_concurr.Memory.Pool.{m_up}
use high_performance_concurr.Memory.Pool.Invariant.{Ensures, Ensures-bind}
use high_performance_concurr.Memory.Buffer
use high_performance_concurr.Memory.Buffer.{Buffer, Io, done, again, failed, int_limit}
use high_performance_concurr.Memory.Buffer.Room.{Owns, contents_of, live, head_of, NoChunk}
use high_performance_concurr.Net.Connection.{
  Connection, Effect, watches_output, unwatches_output, send, do_write, after_loop, write_loop,
}
use high_performance_concurr.Net.Connection.Answers.{Answers, left, left-zero}
use high_performance_concurr.Net.Connection.Stream.{length-contents}
use high_performance_concurr.Net.Connection.Write.{do_write-Wrote}
use high_performance_concurr.Net.Connection.Send.{SendPost, send-SendPost}
use high_performance_concurr.Net.Connection.History.{
  sends, writes, watched, IsStreaming, call, Passed,
}

pub length-bytes : (b : Buffer) (heap : _) → length (contents_of heap b) ≡ live heap b
length-bytes none heap = refl
length-bytes (some a) heap = length-contents a heap

-- The loop watches behind a `send`.
watching_sent :
    {w : Bool} (conn : Connection) (n n' : ℕ)
    → (n ≡ 0) ⊎ (w ≡ true)
    → (n' ≡ 0) ⊎ (watched (if n == 0 then watches_output conn.fd ∷ [] else []) w ≡ true)
watching_sent {w} conn n n' h = elim (Bool-cases (n == 0)) [
  | inl empty ↦ rw empty (inr refl)
  | inr busy ↦ elim h [ inl e ↦ absurd (ground arith) | inr on ↦ rw busy (inr on) ]
]

-- And behind a `do_write`.
watching_wrote :
    {w : Bool} (conn : Connection) (n n' : ℕ)
    → (n ≡ 0) ⊎ (w ≡ true)
    → (n ≡ 0 → n' ≡ 0)
    → (n' ≡ 0) ⊎ (watched (if n' == 0 then unwatches_output conn.fd ∷ [] else []) w ≡ true)
watching_wrote {w} conn n n' h none_more = elim (Bool-cases (n' == 0)) [
  | inl empty ↦ inl (ground arith)
  | inr busy ↦ elim h [ inl e ↦ inl (none_more e) | inr on ↦ rw busy (inr on) ]
]

-- No buffer, nothing to write.
do_write-none :
    (ios : List Io) (conn : Connection) (m : Mem)
    → conn.obuf ≡ none
    → do_write ios conn m ≡ ok ((conn, [], unwatches_output conn.fd ∷ []), m)
unfolding do_write after_loop write_loop Buffer.length
do_write-none [] conn m e = simp (◌>>=◌, e, write_loop, after_loop, Buffer.length) refl
do_write-none (io ∷ ios) conn m e = simp (◌>>=◌, e, write_loop, after_loop, Buffer.length) refl

module _ (sys : ℕ → Grant) {m : Mem} {free : ℕ → List ℕ} {held : ℕ → Bool} {w : Bool} where
  pub sent-Passed :
      (src : Bytes) (len : ℕ) (conn : Connection)
      → IsStreaming m free held conn.obuf w
      → len + live m.heap conn.obuf ≤ m_up
      → (r : Connection × Bool × List Effect) (m' : Mem) → SendPost m held conn src len r m'
      → Passed m conn w (slice src 0 len) (r.0, [], r.2) m'
        × (live m'.heap r.0.obuf ≡ len + live m.heap conn.obuf)
  sent-Passed src len conn s room (conn', false, effects) m' (_, _, _, full) =
      absurd (omega (arith, room, full))
  sent-Passed src len conn s room (conn', true, effects) m' (grown, _, told) =
      let before = length-bytes conn.obuf m.heap in
      let behind = length-bytes conn'.obuf m'.heap in
      let more : live m'.heap conn'.obuf ≡ len + live m.heap conn.obuf = omega (
        arith,
        ap (length {A = ℕ}) grown.bytes,
        length-append (contents_of m.heap conn.obuf) (slice src 0 len),
        length-slice src 0 len,
        before,
        behind,
      ) in
      (
        record {
          free' = grown.free';
          held' = grown.held';
          streaming = record {
            inv = grown.inv;
            owns = grown.owns;
            front = grown.front;
            watching =
                rw told
                  (watching_sent conn (live m.heap conn.obuf) (live m'.heap conn'.obuf) s.watching);
          };
          order = grown.bytes;
        },
        more,
      )

  pub sends-Passed :
      (src : Bytes) (len : ℕ) (conn : Connection)
      → IsStreaming m free held conn.obuf w
      → len + live m.heap conn.obuf ≤ m_up
      → Ensures
          (NoChunk sys m free (len + live m.heap conn.obuf))
          (λ r m'.
            Passed m conn w (slice src 0 len) r m'
            × (live m'.heap r.0.obuf ≡ len + live m.heap conn.obuf))
          (call sys (sends src len) conn m)
  unfolding call
  sends-Passed src len conn s room =
      Ensures-bind (NoChunk sys m free (len + live m.heap conn.obuf)) (SendPost m held conn src len)
        (λ r m'.
          Passed m conn w (slice src 0 len) r m'
          × (live m'.heap r.0.obuf ≡ len + live m.heap conn.obuf))
        (send sys src len conn) (λ r. pure (r.0, [], r.2)) m
        (send-SendPost s.inv sys src len conn s.owns s.front (omega (arith, room)))
        (sent-Passed src len conn s room)

  pub writes-Passed :
      (X : Type 0) (ios : List Io) (conn : Connection)
      → IsStreaming m free held conn.obuf w
      → Answers ios (live m.heap conn.obuf)
      → Ensures X
          (λ r m'.
            Passed m conn w [] r m'
            × (r.0 ≡ conn)
            × (live m'.heap r.0.obuf ≡ left ios (live m.heap conn.obuf)))
          (call sys (writes ios) conn m)
  unfolding call
  writes-Passed X ios conn s answers = elim (Option-cases conn.obuf) [
    | inl nothing ↦ rw (do_write-none ios conn m nothing) (
        rw nothing (
          record {
            free' = free;
            held' = held;
            streaming = record { inv = s.inv; owns = tt; front = refl; watching = inl refl };
            order = refl;
          },
          refl,
          sym (left-zero ios),
        ))
    | inr (a, there) ↦
        let owned : held a ≡ true = subst (Owns held) there s.owns in
        let front : head_of m.heap (some a) ≡ 0 = subst (λ b. head_of m.heap b ≡ 0) there s.front in
        let fits = subst (λ b. Answers ios (live m.heap b)) there answers in
        let busy = subst (λ b. (live m.heap b ≡ 0) ⊎ (w ≡ true)) there s.watching in
        let wrote = do_write-Wrote a owned ios conn m there s.inv front fits in
        rw wrote.result (
          rw there (
            record {
              free' = free;
              held' = held;
              streaming = record {
                inv = wrote.inv;
                owns = owned;
                front = wrote.front;
                watching =
                    watching_wrote conn (live m.heap (some a)) (live wrote.after.heap (some a)) busy
                      (λ e. wrote.remaining ∙ ap (left ios) e ∙ left-zero ios);
              };
              order = wrote.order ∙ sym (append-nil _);
            },
            refl,
            wrote.remaining,
          ))
  ]
