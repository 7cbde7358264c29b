-- ===== src/Net/Connection/Write.antt =====
-- `do_write`, the loop and what follows it.
use high_performance_concurr.Base.{
  ℕ, ◌≡◌, ◌≢◌, sym, subst, length, false, Bool-cases, ap, ◌∙◌, some, List, [], ◌∷◌, ◌++◌, Bool,
  true, Outcome, ok, ◌⊎◌, inl, inr, ◌==◌, if◌then◌else◌,
}
use high_performance_concurr.Memory.Store.{Mem, ◌>>=◌}
use high_performance_concurr.Memory.Pool.Invariant.{Inv}
use high_performance_concurr.Memory.Buffer
use high_performance_concurr.Memory.Buffer.{Io}
use high_performance_concurr.Memory.Buffer.Room.{Owns, contents_of, live, head_of}
use high_performance_concurr.Net.Connection.{
  Connection, Drain, drained, blocked, broken, Effect, unwatches_output, write_loop, after_loop,
  do_write,
}
use high_performance_concurr.Net.Connection.Close.{Apart, do_close-Closed}
use high_performance_concurr.Net.Connection.Read.{shut, close_effects}
use high_performance_concurr.Net.Connection.Answers.{
  Answers, Replies, breaks, left, Stops, Answers-Replies, breaks-Answers,
}
use high_performance_concurr.Net.Connection.Stream.{
  Streamed, write_loop-Streamed, length-live, length-contents,
}

-- What `do_write` leaves when no `write` fails: `taken` went to the kernel, and the loop stops
-- watching for output exactly if nothing is left to send.
pub record Wrote (m : Mem) (free : ℕ → List ℕ) (held : ℕ → Bool) (a : ℕ) (ios : List Io)
    (conn : Connection) (r : Outcome ((Connection × List ℕ × List Effect) × Mem)) : Type 0 where
  pub taken : List ℕ
  pub after : Mem
  pub result :
      r
      ≡ ok (
        (conn, taken, if live after.heap (some a) == 0 then unwatches_output conn.fd ∷ [] else []),
        after,
      )
  pub order : taken ++ contents_of after.heap (some a) ≡ contents_of m.heap (some a)
  pub inv : Inv after free held
  pub front : head_of after.heap (some a) ≡ 0
  pub others : (q : ℕ) → q ≢ a → after.heap q ≡ m.heap q
  pub remaining : live after.heap (some a) ≡ left ios (live m.heap (some a))

-- What it leaves when one fails: the connection is closed, and what the kernel did not take is lost.
pub record Cut (m : Mem) (a : ℕ) (ios : List Io) (conn : Connection)
    (r : Outcome ((Connection × List ℕ × List Effect) × Mem)) : Type 0 where
  pub taken : List ℕ
  pub lost : List ℕ
  pub after : Mem
  pub free' : ℕ → List ℕ
  pub held' : ℕ → Bool
  pub result : r ≡ ok ((shut conn, taken, close_effects conn), after)
  pub order : taken ++ lost ≡ contents_of m.heap (some a)
  pub many : length lost ≡ left ios (live m.heap (some a))
  pub inv : Inv after free' held'
  pub gone : (q : ℕ) → (conn.ibuf ≡ some q) ⊎ (conn.obuf ≡ some q) → held' q ≡ false

do_write-eq :
    (a : ℕ) (ios : List Io) (conn : Connection) (m : Mem) {m' : Mem} {r : Drain × List ℕ}
    → conn.obuf ≡ some a
    → write_loop ios (some a) m ≡ ok (r, m')
    → do_write ios conn m ≡ after_loop conn r m'
unfolding do_write
do_write-eq a ios conn m e ran =
    let loop = ap (λ b. write_loop ios b m) e ∙ ran in rw (do_write, loop, ◌>>=◌)

unbroken : {n : ℕ} {d : Drain} {b : Bool} → b ≡ false → Stops d b n → (d ≡ blocked) ⊎ (d ≡ drained)
unbroken whole (inl (_, broke)) = cc
unbroken whole (inr (_, inl e)) = inl e
unbroken whole (inr (_, inr (e, _))) = inr e

not_whole : {n : ℕ} {d : Drain} {b : Bool} → b ≡ true → Stops d b n → d ≡ broken
not_whole broke (inl (e, _)) = e
not_whole broke (inr (whole, _)) = cc

module _ (a : ℕ) {free : ℕ → List ℕ} {held : ℕ → Bool} (owned : held a ≡ true) where
  after_loop-eq :
      (conn : Connection) (d : Drain) (taken : List ℕ) (m : Mem)
      → Inv m free held
      → conn.obuf ≡ some a
      → (d ≡ blocked) ⊎ (d ≡ drained)
      → after_loop conn (d, taken) m
        ≡ ok (
          (conn, taken, if live m.heap (some a) == 0 then unwatches_output conn.fd ∷ [] else []),
          m,
        )
  unfolding after_loop
  after_loop-eq conn d taken m v e (inl b) =
      let measured = ap (λ b. Buffer.length b m) e ∙ length-live a owned v in
      rw (b, measured, ◌>>=◌)
  after_loop-eq conn d taken m v e (inr b) =
      let measured = ap (λ b. Buffer.length b m) e ∙ length-live a owned v in
      rw (b, measured, ◌>>=◌)

  whole-Wrote :
      (ios : List Io) (conn : Connection) (m : Mem)
      → conn.obuf ≡ some a
      → breaks ios (live m.heap (some a)) ≡ false
      → Streamed m free held a ios (write_loop ios (some a) m)
      → Wrote m free held a ios conn (do_write ios conn m)
  whole-Wrote ios conn m e whole s = record {
    taken = s.taken;
    after = s.after;
    result =
        do_write-eq a ios conn m e s.result
        ∙ after_loop-eq conn s.drain s.taken s.after s.inv e (unbroken whole s.stops);
    order = s.order;
    inv = s.inv;
    front = s.front;
    others = s.others;
    remaining = s.remaining;
  }

  -- `do_write`, on a connection whose output buffer begins at offset 0 and with answers of the
  -- kernel of which none is an error and none takes more than it was offered, hands the kernel the
  -- first bytes of the buffer, in order: what it took over all its calls of `write` and what is left
  -- make up what was there. It asks the loop to stop watching for output exactly if nothing is left.
  -- What is left is as much as the answers leave. The pool stays in good order, and no other chunk changes.
  pub do_write-Wrote :
      (ios : List Io) (conn : Connection) (m : Mem)
      → conn.obuf ≡ some a
      → Inv m free held
      → head_of m.heap (some a) ≡ 0
      → Answers ios (live m.heap (some a))
      → Wrote m free held a ios conn (do_write ios conn m)
  do_write-Wrote ios conn m e v front answers =
      let n : ℕ = live m.heap (some a) in
      whole-Wrote ios conn m e (breaks-Answers ios n answers)
        (write_loop-Streamed a owned ios m v front (Answers-Replies ios n answers))

  broken-Cut :
      (ios : List Io) (conn : Connection) (m : Mem)
      → conn.obuf ≡ some a
      → Owns held conn.ibuf
      → Apart (some a) conn.ibuf
      → breaks ios (live m.heap (some a)) ≡ true
      → Streamed m free held a ios (write_loop ios (some a) m)
      → Cut m a ios conn (do_write ios conn m)
  unfolding after_loop
  broken-Cut ios conn m e owns_i apart broke s =
      let closed =
        do_close-Closed s.inv conn owns_i (subst (Owns held) (sym e) owned)
          (subst (λ b. Apart b conn.ibuf) (sym e) apart) in
      let at_end : after_loop conn (broken, s.taken) s.after
          ≡ ok ((shut conn, s.taken, close_effects conn), closed.after) =
        rw (closed.result, ◌>>=◌) in
      record {
        taken = s.taken;
        lost = contents_of s.after.heap (some a);
        after = closed.after;
        free' = closed.free';
        held' = closed.held';
        result =
            do_write-eq a ios conn m e s.result
            ∙ ap (λ d. after_loop conn (d, s.taken) s.after) (not_whole broke s.stops)
            ∙ at_end;
        order = s.order;
        many = length-contents a s.after.heap ∙ s.remaining;
        inv = closed.inv;
        gone = λ q h. closed.gone q h;
      }

  -- `do_write`, on a connection whose output buffer begins at offset 0 and whose other buffer is null
  -- or another chunk, with answers of the kernel of which none takes more than it was offered. Where
  -- none of those that the loop comes to is an error, it is as `Wrote` says: what the kernel took over
  -- all calls of `write` and what is left make up what was there, and the loop stops watching for
  -- output exactly if nothing is left. Where one is, the connection is closed as `do_close` does it,
  -- both of its chunks are back in the pool, and what the kernel took and what is lost make up what was
  -- there. In both cases the pool stays in good order, and what is not taken is as much as the answers
  -- leave. It neither aborts nor faults.
  pub do_write-Written :
      (ios : List Io) (conn : Connection) (m : Mem)
      → conn.obuf ≡ some a
      → Inv m free held
      → Owns held conn.ibuf
      → Apart (some a) conn.ibuf
      → head_of m.heap (some a) ≡ 0
      → Replies ios (live m.heap (some a))
      → ((breaks ios (live m.heap (some a)) ≡ false)
          × Wrote m free held a ios conn (do_write ios conn m))
        ⊎ ((breaks ios (live m.heap (some a)) ≡ true) × Cut m a ios conn (do_write ios conn m))
  do_write-Written ios conn m e v owns_i apart front replies =
      let s = write_loop-Streamed a owned ios m v front replies in
      elim (Bool-cases (breaks ios (live m.heap (some a)))) [
        | inl broke ↦ inr (broke, broken-Cut ios conn m e owns_i apart broke s)
        | inr whole ↦ inl (whole, whole-Wrote ios conn m e whole s)
      ]
