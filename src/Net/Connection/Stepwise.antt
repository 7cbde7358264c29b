-- ===== src/Net/Connection/Stepwise.antt =====
-- Events of a connection one after the other, and what they do to its output as a stream.
use high_performance_concurr.Base.{
  ℕ, ◌≡◌, refl, sym, ap, ◌∙◌, subst, Bool, true, false, List, [], ◌∷◌, ◌++◌, append_assoc,
  append-nil, ok,
}
use high_performance_concurr.Memory.Store.{Mem, M, pure, ◌>>=◌}
use high_performance_concurr.Memory.Pool.Invariant.{
  Ensures, Ensures-bind, Ensures-bind_told, Ensures-map,
}
use high_performance_concurr.Memory.Buffer.Room.{live}
use high_performance_concurr.Net.Connection.{
  Connection, Effect, runs_message_cb, runs_close_cb, watches_output, unwatches_output, unwatches,
  queues_connected, runs_connected_cb, watches_input, closes, cleans,
}
use high_performance_concurr.Net.Connection.History.{watched, IsStreaming, Passed}

-- What can happen to a connection: an event, what it does (the connection, what went to the kernel, and
-- the effects), the bytes that it adds to the output, what it needs for an output of some bytes, how
-- many it leaves of those, what holds of the connection between two events, and where the event
-- finds the pool exhausted.
pub record Source : Type 1 where
  pub Event : Type 0
  pub act : Event → Connection → M (Connection × List ℕ × List Effect)
  pub given : Event → List ℕ
  pub Fits : Event → ℕ → Type 0
  pub left : Event → ℕ → ℕ
  pub Idle : Connection → Type 0
  pub Starved : Event → Connection → Mem → Type 0

module _ (S : Source) where
  unfoldable pub run_all : List S.Event → Connection → M (Connection × List ℕ × List Effect)
  run_all [] conn = pure (conn, [], [])
  run_all (e ∷ es) conn = do
    r ← S.act e conn
    s ← run_all es r.0
    pure (s.0, r.1 ++ s.1, r.2 ++ s.2)

  abbrev pub all_given : List S.Event → List ℕ
  all_given [] = []
  all_given (e ∷ es) = S.given e ++ all_given es

  abbrev pub Orderly : List S.Event → ℕ → Type 0
  Orderly [] n = Unit {0}
  Orderly (e ∷ es) n = S.Fits e n × Orderly es (S.left e n)

  -- An event found the pool exhausted; those before it have run.
  pub record RanOut (es : List S.Event) (conn : Connection) (m : Mem) : Type 0 where
    pub before : List S.Event
    pub event : S.Event
    pub others : List S.Event
    pub split : es ≡ before ++ (event ∷ others)
    pub r : Connection × List ℕ × List Effect
    pub m' : Mem
    pub reached : run_all before conn m ≡ ok (r, m')
    pub starved : S.Starved event r.0 m'

  -- What one event leaves.
  abbrev pub Acted :
      Mem → Connection → Bool → S.Event → Connection × List ℕ × List Effect → Mem → Type 0
  Acted m conn w e r m' =
      Passed m conn w (S.given e) r m'
      × S.Idle r.0
      × (live m'.heap r.0.obuf ≡ S.left e (live m.heap conn.obuf))

watched-append : (es fs : List Effect) (w : Bool) → watched (es ++ fs) w ≡ watched fs (watched es w)
watched-append [] fs w = refl
watched-append (watches_output fd ∷ es) fs w = watched-append es fs true
watched-append (unwatches_output fd ∷ es) fs w = watched-append es fs false
watched-append (watches_input fd ∷ es) fs w = watched-append es fs w
watched-append (queues_connected ∷ es) fs w = watched-append es fs w
watched-append (runs_connected_cb ∷ es) fs w = watched-append es fs w
watched-append (runs_message_cb ∷ es) fs w = watched-append es fs w
watched-append (runs_close_cb ∷ es) fs w = watched-append es fs w
watched-append (unwatches fd ∷ es) fs w = watched-append es fs false
watched-append (closes fd ∷ es) fs w = watched-append es fs w
watched-append (cleans ∷ es) fs w = watched-append es fs w

joined-Passed :
    {m m1 m2 : Mem} {conn : Connection} {w : Bool} {xs ys : List ℕ}
    {r s : Connection × List ℕ × List Effect}
    → (p : Passed m conn w xs r m1) → Passed m1 r.0 (watched r.2 w) ys s m2
    → Passed m conn w (xs ++ ys) (s.0, r.1 ++ s.1, r.2 ++ s.2) m2
joined-Passed {w = w} {xs = xs} {ys = ys} {r = r} {s = s} p q = record {
  free' = q.free';
  held' = q.held';
  streaming = rw watched-append q.streaming;
  order =
      append_assoc r.1 s.1 _
      ∙ ap (λ zs. r.1 ++ zs) q.order
      ∙ sym (append_assoc r.1 _ ys)
      ∙ ap (λ zs. zs ++ ys) p.order
      ∙ append_assoc _ xs ys;
}

module _ (S : Source)
    (law : (e : S.Event) (conn : Connection) (m : Mem) (free : ℕ → List ℕ) (held : ℕ → Bool)
        (w : Bool)
      → IsStreaming m free held conn.obuf w
      → S.Idle conn
      → S.Fits e (live m.heap conn.obuf)
      → Ensures (S.Starved e conn m) (Acted S m conn w e) (S.act e conn m)) where
  -- The first event that is short of memory is the first of all, or it is a later one.
  first-RanOut :
      {e : S.Event} {es : List S.Event} {conn : Connection} {m : Mem}
      → S.Starved e conn m
      → RanOut S (e ∷ es) conn m
  unfolding run_all
  first-RanOut {e} {es} {conn} {m} x = record {
    before = [];
    event = e;
    others = es;
    split = refl;
    r = (conn, [], []);
    m' = m;
    reached = refl;
    starved = x;
  }

  later-RanOut :
      {e : S.Event} {es : List S.Event} {conn : Connection} {m m1 : Mem}
      {r : Connection × List ℕ × List Effect}
      → S.act e conn m ≡ ok (r, m1)
      → RanOut S es r.0 m1
      → RanOut S (e ∷ es) conn m
  unfolding run_all
  later-RanOut {e} {r = r} ran x = record {
    before = e ∷ x.before;
    event = x.event;
    others = x.others;
    split = ap (λ xs. e ∷ xs) x.split;
    r = (x.r.0, r.1 ++ x.r.1, r.2 ++ x.r.2);
    m' = x.m';
    reached = rw (ran, ◌>>=◌, x.reached, ◌>>=◌);
    starved = x.starved;
  }

  pub run_all-Passed :
      (es : List S.Event) (conn : Connection) (m : Mem) (free : ℕ → List ℕ) (held : ℕ → Bool)
      (w : Bool)
      → IsStreaming m free held conn.obuf w
      → S.Idle conn
      → Orderly S es (live m.heap conn.obuf)
      → Ensures (RanOut S es conn m) (Passed m conn w (all_given S es)) (run_all S es conn m)
  unfolding run_all
  run_all-Passed [] conn m free held w s idle orderly = record {
    free' = free;
    held' = held;
    streaming = s;
    order = sym (append-nil _);
  }
  run_all-Passed (e ∷ es) conn m free held w s idle (fits, orderly) =
      let X : Type 0 = RanOut S (e ∷ es) conn m in
      let P = Acted S m conn w e in
      let Q = Passed m conn w (all_given S (e ∷ es)) in
      Ensures-bind_told X P Q (S.act e conn)
        (λ r. run_all S es r.0 >>= λ s. pure (s.0, r.1 ++ s.1, r.2 ++ s.2)) m
        (Ensures-map (S.Starved e conn m) X P P (S.act e conn m) first-RanOut (λ r m' p. p)
          (law e conn m free held w s idle fits))
        (λ r m1 ran (p, rests, many).
          let R = Passed m1 r.0 (watched r.2 w) (all_given S es) in
          Ensures-bind X R Q (run_all S es r.0) (λ s. pure (s.0, r.1 ++ s.1, r.2 ++ s.2)) m1
            (Ensures-map (RanOut S es r.0 m1) X R R (run_all S es r.0 m1) (later-RanOut ran)
              (λ s m2 q. q)
              (run_all-Passed es r.0 m1 p.free' p.held' (watched r.2 w) p.streaming rests
                (subst (Orderly S es) (sym many) orderly)))
            (λ s m2 q. joined-Passed p q))
