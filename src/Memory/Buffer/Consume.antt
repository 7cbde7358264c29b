-- ===== src/Memory/Buffer/Consume.antt =====
-- `write2fd` hands the kernel the first bytes of a buffer.
use high_performance_concurr.Base.{
  ℕ_discrete, ℕ, ◌+◌, ◌-◌, ◌≤◌, ◌≡◌, ◌≢◌, refl, sym, ap, ◌∙◌, subst, Bool, true, false, Option,
  some, List, [], ◌++◌, length, Outcome, ok, arith, inl, inr, take, drop, take-append-drop, le→leb,
  leb, ==_iff, ◌==◌, Bool-cases, if◌then◌else◌,
}
use high_performance_concurr.Memory.Bytes.{
  slice, blit, slice-blit_self, length-slice, drop-slice, take-slice,
}
use high_performance_concurr.Memory.Chunk
use high_performance_concurr.Memory.Chunk.{Chunk, contents}
use high_performance_concurr.Memory.Store.{Mem, update, ◌>>=◌}
use high_performance_concurr.Memory.Pool.FreeList.{update-ne, update-eq}
use high_performance_concurr.Memory.Pool.Invariant.{Inv}
use high_performance_concurr.Memory.Pool.Write.{Inv-write}
use high_performance_concurr.Memory.Buffer.Room.{contents_of, live, head_of, live_at, head_at}
use high_performance_concurr.Memory.Buffer.{Ret, count, error, Io, done, again, failed, write2fd}

-- What is left of a chunk when its first `n` bytes are gone and the rest has moved to the front.
abbrev pub advanced : Chunk → ℕ → Chunk
advanced c n = record c {
  length = c.length - n;
  head = 0;
  bytes = if c.length - n == 0 then c.bytes else blit c.bytes 0 c.bytes (c.head + n) (c.length - n);
}

-- A chunk whose live bytes begin at 0 gives up its first `n` and is adjusted.
pop-adjust :
    (c : Chunk) (n : ℕ)
    → c.head ≡ 0
    → c.length ≤ c.capacity
    → n ≢ 0
    → n ≤ c.length
    → (Chunk.pop c n ≡ ok (record c { length = c.length - n; head = c.head + n }))
      × (Chunk.adjust (record c { length = c.length - n; head = c.head + n }) ≡ ok (advanced c n))
unfolding Chunk.pop Chunk.adjust
pop-adjust c n front fits some_n le = (
  rw (le→leb n c.length le),
  elim (Bool-cases (c.length - n == 0)) [
    | inl z ↦ rw (not_zero, z)
    | inr z ↦ rw (not_zero, z, inside)
  ],
)
  where
    not_zero : (c.head + n == 0) ≡ false
    not_zero = ground arith

    inside : leb (c.head + n + (c.length - n)) c.capacity ≡ true
    inside = le→leb _ _ (omega arith)

contents-advanced :
    (c : Chunk) (n : ℕ) → n ≤ c.length → contents (advanced c n) ≡ drop n (contents c)
contents-advanced c n le = rw (drop-slice c.bytes c.head n c.length le) (by_rest _ refl)
  where
    by_rest :
        (b : Bool)
        → (c.length - n == 0) ≡ b
        → slice
            (if b then c.bytes else blit c.bytes 0 c.bytes (c.head + n) (c.length - n))
            0
            (c.length - n)
          ≡ slice c.bytes (c.head + n) (c.length - n)
    by_rest true e = let none_left : c.length - n ≡ 0 = (==_iff _ _).0 e in rw none_left
    by_rest false e = slice-blit_self c.bytes c.bytes 0 (c.head + n) (c.length - n)

-- What the kernel promises of `write` for a buffer of `n` bytes.
abbrev pub Writes : ℕ → Io → Type 0
Writes n (done k) = k ≤ n
Writes n again = Unit {0}
Writes n failed = Unit {0}

-- What `write2fd` returns.
abbrev pub returned : Io → Ret
returned (done n) = count n
returned again = count 0
returned failed = error

abbrev pub moved : Io → ℕ
moved (done n) = n
moved again = 0
moved failed = 0

-- Behind `write2fd` the bytes `taken` are gone from the front of the buffer, as many as the kernel
-- took, and nothing else has changed.
pub record Sent (m : Mem) (free : ℕ → List ℕ) (held : ℕ → Bool) (a : ℕ) (io : Io)
    (r : Outcome ((Ret × List ℕ) × Mem)) : Type 0 where
  pub taken : List ℕ
  pub after : Mem
  pub result : r ≡ ok ((returned io, taken), after)
  pub many : length taken ≡ moved io
  pub order : taken ++ contents_of after.heap (some a) ≡ contents_of m.heap (some a)
  pub inv : Inv after free held
  pub front : head_of after.heap (some a) ≡ 0
  pub others : (q : ℕ) → q ≢ a → after.heap q ≡ m.heap q

module _ {m : Mem} {free : ℕ → List ℕ} {held : ℕ → Bool} (v : Inv m free held) (a : ℕ)
    (owned : held a ≡ true) where
  module _ (c : Chunk) (here : m.heap a ≡ some c) (front : c.head ≡ 0)
      (inside : c.head + c.length ≤ c.capacity) where
    unmoved :
        (io : Io)
        → moved io ≡ 0
        → write2fd (some a) io m ≡ ok ((returned io, []), m)
        → Sent m free held a io (write2fd (some a) io m)
    unmoved io none_moved e = record {
      taken = [];
      after = m;
      result = e;
      many = sym none_moved;
      order = refl;
      inv = v;
      front = rw here front;
      others = λ q ne. refl;
    }

    write_none : write2fd (some a) (done 0) m ≡ ok ((count 0, []), m)
    unfolding write2fd
    write_none = rw (here, ◌>>=◌, front)

    write_again : write2fd (some a) again m ≡ ok ((count 0, []), m)
    unfolding write2fd
    write_again = rw (here, ◌>>=◌, front)

    write_failed : write2fd (some a) failed m ≡ ok ((error, []), m)
    unfolding write2fd
    write_failed = rw (here, ◌>>=◌, front)

    write_some :
        (n : ℕ)
        → n ≢ 0
        → n ≤ c.length
        → write2fd (some a) (done n) m
          ≡ ok (
            (count n, slice c.bytes 0 n),
            record m { heap = update m.heap a (some (advanced c n)) },
          )
    unfolding write2fd
    write_some n some_n le =
        let steps = pop-adjust c n front (omega arith) some_n le in
        let not_zero : (n == 0) ≡ false = ground arith in
        let at_front : (c.head == 0) ≡ true = rw front in
        rw (here, ◌>>=◌, at_front, not_zero, steps.0, steps.1)

    taken_first : (n : ℕ) → n ≤ c.length → slice c.bytes 0 n ≡ take n (contents c)
    taken_first n le =
        ap (λ x. slice c.bytes x n) (sym front) ∙ sym (take-slice c.bytes c.head n c.length le)

    Sent-some :
        (n : ℕ) → n ≢ 0 → n ≤ c.length → Sent m free held a (done n) (write2fd (some a) (done n) m)
    Sent-some n some_n le = record {
      taken = slice c.bytes 0 n;
      after = record m { heap = update m.heap a (some (advanced c n)) };
      result = write_some n some_n le;
      many = length-slice c.bytes 0 n;
      order =
          rw (update-eq m.heap a (some (advanced c n)) a refl, here, contents-advanced c n le)
            (ap (λ (xs : List ℕ). xs ++ drop n (contents c)) (taken_first n le)
              ∙ take-append-drop n (contents c));
      inv = Inv-write {c = c} a (advanced c n) v owned here refl (omega arith);
      front = rw (update-eq m.heap a (some (advanced c n)) a refl);
      others = λ q ne. update-ne m.heap a (some (advanced c n)) q ne;
    }

    by_io : (io : Io) → Writes c.length io → Sent m free held a io (write2fd (some a) io m)
    by_io (done n) le = elim (ℕ_discrete n 0) [
      | yes none_moved ↦ rw none_moved (unmoved (done 0) refl write_none)
      | no some_moved ↦ Sent-some n some_moved le
    ]
    by_io again tt = unmoved again refl write_again
    by_io failed tt = unmoved failed refl write_failed

  -- `write2fd`, on a buffer whose bytes begin at offset 0, hands the kernel the first bytes of the
  -- buffer, in order: what it took and what is left make up what was there. It returns the number
  -- taken, 0 for EAGAIN and -1 for another error. It neither aborts nor faults, the pool stays in
  -- good order, and no other chunk changes.
  pub write2fd-Sent :
      (io : Io)
      → head_of m.heap (some a) ≡ 0
      → Writes (live m.heap (some a)) io
      → Sent m free held a io (write2fd (some a) io m)
  write2fd-Sent io front ready =
      let (c, here, _, inside) = v.shape.owned a owned in
      by_io c here (ap head_at (sym here) ∙ front) inside io
        (subst (λ (o : Option Chunk). Writes (live_at o) io) here ready)
