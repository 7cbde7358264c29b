-- ===== src/Net/Connection/Stream.antt =====
-- What a connection sends, as a stream of bytes.
use high_performance_concurr.Base.{
  ℕ_discrete, ℕ, ◌-◌, ◌≡◌, ◌≢◌, refl, sym, ap, ◌∙◌, subst, Bool, true, false, Option, none, some,
  List, [], ◌∷◌, ◌++◌, length, Outcome, ok, arith, inl, inr, ◌==◌,
}
use high_performance_concurr.Base.{append_assoc, length-append}
use high_performance_concurr.Memory.Bytes.{length-slice}
use high_performance_concurr.Memory.Chunk.{Chunk}
use high_performance_concurr.Memory.Store.{Mem, M, ◌>>=◌}
use high_performance_concurr.Memory.Pool.Invariant.{Inv}
use high_performance_concurr.Memory.Buffer
use high_performance_concurr.Memory.Buffer.{
  Buffer, Ret, count, error, Io, done, again, failed, write2fd,
}
use high_performance_concurr.Memory.Buffer.Room.{contents_of, live, head_of, bytes_at, live_at}
use high_performance_concurr.Memory.Buffer.Consume.{Sent, write2fd-Sent, returned, moved}
use high_performance_concurr.Net.Connection.Answers.{
  Replies, breaks, breaks-zero, left, left-zero, sub-zero, if_same, Stops,
}
use high_performance_concurr.Net.Connection.{
  Drain, drained, blocked, broken, after_write, write_loop,
}

-- The loop took the first bytes of the buffer.
pub record Streamed (m : Mem) (free : ℕ → List ℕ) (held : ℕ → Bool) (a : ℕ) (ios : List Io)
    (r : Outcome ((Drain × List ℕ) × Mem)) : Type 0 where
  pub drain : Drain
  pub taken : List ℕ
  pub after : Mem
  pub result : r ≡ ok ((drain, taken), after)
  pub order : taken ++ contents_of after.heap (some a) ≡ contents_of m.heap (some a)
  pub inv : Inv after free held
  pub front : head_of after.heap (some a) ≡ 0
  pub others : (q : ℕ) → q ≢ a → after.heap q ≡ m.heap q
  pub remaining : live after.heap (some a) ≡ left ios (live m.heap (some a))
  pub stops : Stops drain (breaks ios (live m.heap (some a))) (live after.heap (some a))

pub length-contents :
    (a : ℕ) (heap : ℕ → Option Chunk) → length (contents_of heap (some a)) ≡ live heap (some a)
length-contents a heap = by_chunk (heap a)
  where
    by_chunk : (o : Option Chunk) → length (bytes_at o) ≡ live_at o
    by_chunk none = refl
    by_chunk (some c) = length-slice c.bytes c.head c.length

-- With what answer the loop ends, and how.
abbrev LastAnswer : Ret → Drain → Type 0
LastAnswer error d = d ≡ broken
LastAnswer (count n) d = (n ≡ 0) × (d ≡ blocked)

over_result :
    (ret : Ret) (d : Drain) (rest : M (Drain × List ℕ)) (taken : List ℕ) (m : Mem)
    → LastAnswer ret d
    → after_write rest (ret, taken) m ≡ ok ((d, taken), m)
unfolding after_write
over_result error d rest taken m e = rw e refl
over_result (count n) d rest taken m (zero_taken, e) = rw (zero_taken, e) refl

module _ (a : ℕ) {free : ℕ → List ℕ} {held : ℕ → Bool} (owned : held a ≡ true) where
  pub length-live :
      {m : Mem} → Inv m free held → Buffer.length (some a) m ≡ ok (live m.heap (some a), m)
  unfolding Buffer.length
  length-live {m} v = let (c, here, _, _) = v.shape.owned a owned in rw (here, ◌>>=◌)

  none_left :
      {m : Mem} (ios : List Io)
      → Inv m free held
      → head_of m.heap (some a) ≡ 0
      → live m.heap (some a) ≡ 0
      → Streamed m free held a ios (write_loop ios (some a) m)
  unfolding write_loop
  none_left {m} [] v front empty = record {
    drain = drained;
    taken = [];
    after = m;
    result = rw (length-live v, ◌>>=◌, empty);
    order = refl;
    inv = v;
    front = front;
    others = λ q ne. refl;
    remaining = refl;
    stops = inr (refl, inr (refl, empty));
  }
  none_left {m} (io ∷ ios) v front empty = record {
    drain = drained;
    taken = [];
    after = m;
    result = rw (length-live v, ◌>>=◌, empty);
    order = refl;
    inv = v;
    front = front;
    others = λ q ne. refl;
    remaining = rw (empty, left-zero (io ∷ ios));
    stops = inr (ap (breaks (io ∷ ios)) empty ∙ breaks-zero (io ∷ ios), inr (refl, empty));
  }

  -- What is left when the kernel has taken some bytes.
  live-Sent :
      {m : Mem} {io : Io} {r : Outcome ((Ret × List ℕ) × Mem)} (s : Sent m free held a io r)
      → live s.after.heap (some a) ≡ live m.heap (some a) - moved io
  live-Sent {m} s = omega (
    arith,
    s.many,
    length-append s.taken (contents_of s.after.heap (some a)),
    ap (length {A = ℕ}) s.order,
    length-contents a s.after.heap,
    length-contents a m.heap,
  )

  -- One iteration, up to what follows the call of `write`.
  one_write :
      {m : Mem} (io : Io) (ios : List Io)
      → Inv m free held
      → live m.heap (some a) ≢ 0
      → (s : Sent m free held a io (write2fd (some a) io m))
      → write_loop (io ∷ ios) (some a) m
        ≡ after_write (write_loop ios (some a)) (returned io, s.taken) s.after
  unfolding write_loop
  one_write {m} io ios v some_left s =
      let more : (live m.heap (some a) == 0) ≡ false = ground arith in
      rw (length-live v, ◌>>=◌, more, s.result)

  stopped :
      {m : Mem} (io : Io) (ios : List Io) (d : Drain) (ret : Ret)
      → moved io ≡ 0
      → returned io ≡ ret
      → LastAnswer ret d
      → Stops d (breaks (io ∷ ios) (live m.heap (some a))) (live m.heap (some a))
      → left (io ∷ ios) (live m.heap (some a)) ≡ live m.heap (some a)
      → Inv m free held
      → live m.heap (some a) ≢ 0
      → Sent m free held a io (write2fd (some a) io m)
      → Streamed m free held a (io ∷ ios) (write_loop (io ∷ ios) (some a) m)
  unfolding after_write
  stopped {m} io ios d ret none_moved returns over stops same v some_left s = record {
    drain = d;
    taken = s.taken;
    after = s.after;
    result =
        one_write io ios v some_left s
        ∙ ap (λ x. after_write (write_loop ios (some a)) (x, s.taken) s.after) returns
        ∙ over_result ret d (write_loop ios (some a)) s.taken s.after over;
    order = s.order;
    inv = s.inv;
    front = s.front;
    others = s.others;
    remaining = unmoved s ∙ sym same;
    stops = subst (Stops d (breaks (io ∷ ios) (live m.heap (some a)))) (sym (unmoved s)) stops;
  }
    where
      unmoved :
          (s : Sent m free held a io (write2fd (some a) io m))
          → live s.after.heap (some a) ≡ live m.heap (some a)
      unmoved s = live-Sent s ∙ rw none_moved (sub-zero _)

  continued :
      {m : Mem} (k : ℕ) (ios : List Io)
      → k ≢ 0
      → Inv m free held
      → live m.heap (some a) ≢ 0
      → (s : Sent m free held a (done k) (write2fd (some a) (done k) m))
      → Streamed s.after free held a ios (write_loop ios (some a) s.after)
      → Streamed m free held a (done k ∷ ios) (write_loop (done k ∷ ios) (some a) m)
  unfolding after_write
  continued {m} k ios some_taken v some_left s t =
      let not_zero : (k == 0) ≡ false = ground arith in
      let some_there : (live m.heap (some a) == 0) ≡ false = ground arith in
      record {
        drain = t.drain;
        taken = s.taken ++ t.taken;
        after = t.after;
        result = one_write (done k) ios v some_left s ∙ rw (after_write, not_zero, t.result, ◌>>=◌);
        order =
            append_assoc s.taken t.taken _ ∙ ap (λ (xs : List ℕ). s.taken ++ xs) t.order ∙ s.order;
        inv = t.inv;
        front = t.front;
        others = λ q ne. t.others q ne ∙ s.others q ne;
        remaining = t.remaining ∙ ap (left ios) (live-Sent s) ∙ rw not_zero refl;
        stops =
            subst (λ b. Stops t.drain b (live t.after.heap (some a)))
              (ap (breaks ios) (live-Sent s) ∙ sym (rw (some_there, not_zero) refl)) t.stops;
      }

  pub write_loop-Streamed :
      (ios : List Io) (m : Mem)
      → Inv m free held
      → head_of m.heap (some a) ≡ 0
      → Replies ios (live m.heap (some a))
      → Streamed m free held a ios (write_loop ios (some a) m)
  write_loop-Streamed [] m v front answers = none_left [] v front answers
  write_loop-Streamed (done k ∷ ios) m v front answers =
      elim (ℕ_discrete (live m.heap (some a)) 0) [
        | yes empty ↦ none_left (done k ∷ ios) v front empty
        | no some_left ↦
            let s = write2fd-Sent v a owned (done k) front answers.0 in
            elim (ℕ_discrete k 0) [
              | yes none_taken ↦
                  stopped (done k) ios blocked (count k) none_taken refl (none_taken, refl)
                    (inr (rw none_taken (if_same _), inl refl)) (rw none_taken refl) v some_left s
              | no some_taken ↦ continued k ios some_taken v some_left s (
                  write_loop-Streamed ios s.after s.inv s.front
                    (subst (Replies ios) (sym (live-Sent s)) answers.1))
            ]
      ]
  write_loop-Streamed (again ∷ ios) m v front answers = elim (ℕ_discrete (live m.heap (some a)) 0) [
    | yes empty ↦ none_left (again ∷ ios) v front empty
    | no some_left ↦
        stopped again ios blocked (count 0) refl refl (refl, refl) (inr (refl, inl refl)) refl v
          some_left (write2fd-Sent v a owned again front tt)
  ]
  write_loop-Streamed (failed ∷ ios) m v front answers =
      elim (ℕ_discrete (live m.heap (some a)) 0) [
        | yes empty ↦ none_left (failed ∷ ios) v front empty
        | no some_left ↦
            let some_there : (live m.heap (some a) == 0) ≡ false = ground arith in
            stopped failed ios broken error refl refl refl (inl (refl, rw some_there refl)) refl v
              some_left (write2fd-Sent v a owned failed front tt)
      ]
