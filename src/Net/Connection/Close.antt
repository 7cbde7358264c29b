-- ===== src/Net/Connection/Close.antt =====
-- `do_close`.
use high_performance_concurr.Base.{
  ℕ, ◌≡◌, ◌≢◌, refl, sym, ap, ◌∙◌, none, some, List, [], ◌∷◌, ◌++◌, Bool, false, Outcome, ok,
  if◌then◌else◌, ◌⊎◌, inl, inr, some-injective,
}
use high_performance_concurr.Memory.Store.{Mem, ◌>>=◌, update}
use high_performance_concurr.Memory.Pool.Invariant.{Inv}
use high_performance_concurr.Memory.Pool.Retrieve.{retrieve-Inv}
use high_performance_concurr.Memory.Pool.FreeList.{update-ne, update-eq}
use high_performance_concurr.Memory.Buffer
use high_performance_concurr.Memory.Buffer.{Buffer}
use high_performance_concurr.Memory.Buffer.Room.{Owns}
use high_performance_concurr.Net.Connection.{
  Connection, Effect, runs_close_cb, unwatches, closes, cleans, do_close,
}

-- The two buffers of a connection are not one chunk.
abbrev pub Apart : Buffer → Buffer → Type 0
Apart none b = Unit {0}
Apart (some a) b = b ≢ some a

-- Behind `Buffer.clear` the buffer's chunk is no longer handed out, and the others still are.
record Cleared (m : Mem) (held : ℕ → Bool) (b : Buffer) (r : Outcome (Buffer × Mem)) : Type 0 where
  after : Mem
  free' : ℕ → List ℕ
  held' : ℕ → Bool
  result : r ≡ ok (none, after)
  inv : Inv after free' held'
  gone : (a : ℕ) → b ≡ some a → held' a ≡ false
  others : (q : ℕ) → b ≢ some q → (held' q ≡ held q) × (after.heap q ≡ m.heap q)

clear-Cleared :
    {m : Mem} {free : ℕ → List ℕ} {held : ℕ → Bool} (v : Inv m free held) (b : Buffer)
    → Owns held b
    → Cleared m held b (Buffer.clear b m)
unfolding Buffer.clear
clear-Cleared {m} {free} {held} v none owned = record {
  after = m;
  free' = free;
  held' = held;
  result = refl;
  inv = v;
  gone = λ a e. cc;
  others = λ q ne. (refl, refl);
}
clear-Cleared {m} {free} {held} v (some a) owned =
    let (c, m', at, ran, inv', rest) = retrieve-Inv v a owned in
    record {
      after = m';
      free' = update free c.capacity (a ∷ free c.capacity);
      held' = update held a false;
      result = rw (ran, ◌>>=◌);
      inv = inv';
      gone = λ x e. update-eq held a false x (sym (some-injective e));
      others = λ q ne.
          let apart : q ≢ a = λ e. ne (ap some (sym e)) in
          (update-ne held a false q apart, rest q apart);
    }

-- What `do_close` leaves.
pub record Closed (m : Mem) (held : ℕ → Bool) (conn : Connection)
    (r : Outcome ((Connection × List Effect) × Mem)) : Type 0 where
  pub after : Mem
  pub free' : ℕ → List ℕ
  pub held' : ℕ → Bool
  pub result :
      r
      ≡ ok (
        (
          record conn { fd = none; ibuf = none; obuf = none },
          (if conn.has_close_cb then runs_close_cb ∷ [] else [])
              ++ (unwatches conn.fd ∷ closes conn.fd ∷ cleans ∷ []),
        ),
        after,
      )
  pub inv : Inv after free' held'
  pub gone : (a : ℕ) → (conn.ibuf ≡ some a) ⊎ (conn.obuf ≡ some a) → held' a ≡ false
  pub others :
      (q : ℕ)
      → conn.ibuf ≢ some q
      → conn.obuf ≢ some q
      → (held' q ≡ held q) × (after.heap q ≡ m.heap q)

still_owned :
    {held held' : ℕ → Bool} (b o : Buffer)
    → Apart o b
    → Owns held o
    → ((q : ℕ) → b ≢ some q → held' q ≡ held q)
    → Owns held' o
still_owned b none apart owned same = tt
still_owned b (some a) apart owned same = same a apart ∙ owned

Apart-or_gone : (b o : Buffer) (a : ℕ) → Apart o b → b ≡ some a → o ≢ some a
Apart-or_gone b none a apart e f = cc
Apart-or_gone b (some c) a apart e f = apart (e ∙ sym f)

-- `do_close`, on a connection whose two buffers are different chunks or null, leaves it with
-- both buffers null and no descriptor. It runs the close callback, if there is one, takes the
-- descriptor out of the loop, closes it and has the server forget the connection, in this order.
-- Both chunks are back in the pool, which stays in good order; it neither aborts nor faults, and no
-- other chunk changes hands.
pub do_close-Closed :
    {m : Mem} {free : ℕ → List ℕ} {held : ℕ → Bool} (v : Inv m free held) (conn : Connection)
    → Owns held conn.ibuf
    → Owns held conn.obuf
    → Apart conn.obuf conn.ibuf
    → Closed m held conn (do_close conn m)
unfolding do_close
do_close-Closed {m} {free} {held} v conn owns_i owns_o apart =
    let i = clear-Cleared v conn.ibuf owns_i in
    let o =
      clear-Cleared i.inv conn.obuf
        (still_owned conn.ibuf conn.obuf apart owns_o (λ q ne. (i.others q ne).0)) in
    record {
      after = o.after;
      free' = o.free';
      held' = o.held';
      result = rw (i.result, ◌>>=◌, o.result, ◌>>=◌);
      inv = o.inv;
      gone = λ a which. elim which [
        | inl e ↦ (o.others a (Apart-or_gone conn.ibuf conn.obuf a apart e)).0 ∙ i.gone a e
        | inr e ↦ o.gone a e
      ];
      others =
          λ q ni no. ((o.others q no).0 ∙ (i.others q ni).0, (o.others q no).1 ∙ (i.others q ni).1);
    }
