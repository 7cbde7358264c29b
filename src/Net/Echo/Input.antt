-- ===== src/Net/Echo/Input.antt =====
-- The buffers of a connection behind `do_read` and the message callback.
use high_performance_concurr.Base.{
  ℕ, ◌≡◌, ◌≢◌, refl, sym, ap, ◌∙◌, subst, Bool, true, none, some, List, [], ◌∷◌, ◌++◌, inl, inr,
  Option-cases, length,
}
use high_performance_concurr.Memory.Bytes.{Bytes, slice, length-slice}
use high_performance_concurr.Memory.Store.{Mem}
use high_performance_concurr.Memory.Pool.Invariant.{Inv}
use high_performance_concurr.Memory.Buffer.{Buffer, done}
use high_performance_concurr.Memory.Buffer.Room.{Owns, contents_of, live, head_of}
use high_performance_concurr.Net.Connection.{Connection, Effect, runs_message_cb}
use high_performance_concurr.Net.Connection.Close.{Apart}
use high_performance_concurr.Net.Connection.Read.{Received, still_other}

-- A buffer whose chunk is as it was.
pub record Same (m m' : Mem) (held' : ℕ → Bool) (b : Buffer) : Type 0 where
  pub owns : Owns held' b
  pub bytes : contents_of m'.heap b ≡ contents_of m.heap b
  pub many : live m'.heap b ≡ live m.heap b
  pub front : head_of m'.heap b ≡ head_of m.heap b

pub untouched-Same :
    {m m' : Mem} {held held' : ℕ → Bool} (b : Buffer)
    → Owns held b
    → ((q : ℕ) → b ≡ some q → held q ≡ true → (held' q ≡ true) × (m'.heap q ≡ m.heap q))
    → Same m m' held' b
untouched-Same none owned kept = record { owns = tt; bytes = refl; many = refl; front = refl }
untouched-Same (some q) owned kept =
    let (still, same) = kept q refl owned in
    record { owns = still; bytes = rw same refl; many = rw same refl; front = rw same refl }

pub none-Apart : (o b : Buffer) → b ≡ none → Apart o b
none-Apart none b e = tt
none-Apart (some a) b e = λ f. cc (e, f)

-- The input behind `do_read`: its bytes are in one chunk, and the output is as it was.
pub record Fresh (m : Mem) (conn : Connection) (xs : List ℕ) (r : Connection × List Effect)
    (m1 : Mem) : Type 0 where
  pub free1 : ℕ → List ℕ
  pub held1 : ℕ → Bool
  pub a : ℕ
  pub inv : Inv m1 free1 held1
  pub there : r.0.ibuf ≡ some a
  pub owned : held1 a ≡ true
  pub bytes : contents_of m1.heap (some a) ≡ xs
  pub same : Same m m1 held1 conn.obuf
  pub apart : Apart conn.obuf (some a)
  pub output : r.0.obuf ≡ conn.obuf
  pub effect : r.1 ≡ runs_message_cb ∷ []

module _ {m : Mem} {held : ℕ → Bool} {conn : Connection} {src : Bytes} (idle : conn.ibuf ≡ none)
    (owns_o : Owns held conn.obuf) where
  pub Received-Fresh :
      {n : ℕ} (r : Connection × List Effect) (m1 : Mem)
      → Received m held conn src (done n) r.0 r.1 m1
      → Fresh m conn (slice src 0 n) r m1
  Received-Fresh {n} r m1 g =
      let same_n : n ≡ g.n = cc g.answer in
      let came : contents_of m1.heap r.0.ibuf ≡ slice src 0 g.n =
        g.grown.bytes ∙ ap (λ b. contents_of m.heap b ++ slice src 0 g.n) idle in
      elim (Option-cases r.0.ibuf) [
        | inl nothing ↦
            let none_came : 0 ≡ g.n =
              ap (λ b. length (contents_of m1.heap b)) (sym nothing)
              ∙ ap (length {A = ℕ}) came
              ∙ length-slice src 0 g.n in
            absurd (g.some_bytes (sym none_came))
        | inr (a, there) ↦ record {
          free1 = g.grown.free';
          held1 = g.grown.held';
          a = a;
          inv = g.grown.inv;
          there = there;
          owned = subst (Owns g.grown.held') there g.grown.owns;
          bytes =
              subst (λ b. contents_of m1.heap b ≡ slice src 0 n) there
                (came ∙ ap (slice src 0) (sym same_n));
          same = untouched-Same conn.obuf owns_o (λ q e h.
              let (still, kept, _) = g.grown.others q h (λ f. cc (f, idle)) in (still, kept));
          apart =
              subst (Apart conn.obuf) there
                (still_other (Unit {0}) m held conn n src (done n) g.grown conn.obuf owns_o
                  (none-Apart conn.obuf conn.ibuf idle)).1;
          output = ap Connection.obuf g.rest_same;
          effect = g.effect;
        }
      ]

-- The output behind `take_message`, which has not touched it.
pub later-Same :
    {m m1 m2 : Mem} {held1 held2 : ℕ → Bool} (a : ℕ) (b : Buffer)
    → Same m m1 held1 b
    → Apart b (some a)
    → ((q : ℕ) → held1 q ≡ true → q ≢ a → (held2 q ≡ true) × (m2.heap q ≡ m1.heap q))
    → Same m m2 held2 b
later-Same a none h apart kept = record { owns = tt; bytes = refl; many = refl; front = refl }
later-Same a (some q) h apart kept =
    let (still, same) = kept q h.owns (λ e. apart (ap some (sym e))) in
    record { owns = still; bytes = rw same h.bytes; many = rw same h.many; front = rw same h.front }
