-- ===== src/Memory/Buffer/Reserve.antt =====
-- Making room: what `read_from_fd` and `write2buf` begin with.
use native.Mathlib.Nat.{add-zero}
use high_performance_concurr.Base.{
  lt→ltb, ℕ, ◌+◌, ◌≤◌, ◌<◌, ◌≡◌, refl, sym, ap, ◌∙◌, subst, Bool, true, false, Option, none, some,
  List, ok, arith, Bool-cases, inl, inr, ltb, some-injective,
}
use high_performance_concurr.Memory.Chunk.{Chunk}
use high_performance_concurr.Memory.Store.{Mem, Grant, update, ◌>>=◌}
use high_performance_concurr.Memory.Pool.{alloc_chunk}
use high_performance_concurr.Memory.Pool.Classes.{IsBest}
use high_performance_concurr.Memory.Pool.FreeList.{update-eq}
use high_performance_concurr.Memory.Pool.Invariant.{Inv, Ensures, Ensures-map}
use high_performance_concurr.Memory.Pool.Handout.{Allocated, Exhausted}
use high_performance_concurr.Memory.Pool.Alloc.{AllocPost, alloc_chunk-AllocPost}
use high_performance_concurr.Memory.Buffer.Room.{
  Owns, live, live_at, head_at, head_of, Room, RoomPost, NoChunk,
}
use high_performance_concurr.Memory.Buffer.{Buffer, enlarge, reserve, int_limit}
use high_performance_concurr.Memory.Buffer.Enlarge.{enlarge-Ensures}

module _ (sys : ℕ → Grant) {m : Mem} {free : ℕ → List ℕ} {held : ℕ → Bool}
    (v : Inv m free held) where
  fresh_room :
      (need k : ℕ) (r : Option ℕ) (m' : Mem)
      → need ≤ k
      → Allocated m held k r m'
      → RoomPost m held none need r m'
  fresh_room need k none m' fits al = cc (al.returned)
  fresh_room need k (some p) m' fits al =
      let e : p ≡ al.addr = some-injective al.returned in
      record {
        free' = al.free';
        held' = update held al.addr true;
        chunk = al.chunk;
        inv = al.inv;
        holds = update-eq held al.addr true p e;
        at = rw e al.at;
        head = al.empty.1;
        fits = omega (arith, al.size, al.empty.0);
        same = rw (al.empty.0);
        others = λ q hq other. (ground (arith), al.kept q hq, λ f. cc (al.new, hq, e, f));
      }

  reserve-none :
      (need : ℕ)
      → Ensures (NoChunk sys m free need) (RoomPost m held none need) (reserve sys none need m)
  unfolding reserve
  reserve-none need =
      let (choice, best, post) = alloc_chunk-AllocPost sys v need in by_choice choice best post
    where
      by_choice :
          (choice : Option ℕ)
          → IsBest need choice
          → AllocPost sys v choice (alloc_chunk sys need m)
          → Ensures (NoChunk sys m free need) (RoomPost m held none need) (alloc_chunk sys need m)
      by_choice none best post = rw post (refl, omega arith)
      by_choice (some k) best post =
          Ensures-map (Exhausted sys m free k) (NoChunk sys m free need) (Allocated m held k)
            (RoomPost m held none need) (alloc_chunk sys need m) (λ x. (k, best, x))
            (λ r m'. fresh_room need k r m' best.1) post

  module _ (a : ℕ) (c : Chunk) (owned : held a ≡ true) (here : m.heap a ≡ some c) where
    reserve-keep :
        (need : ℕ)
        → c.head ≡ 0
        → ltb c.capacity (need + c.length) ≡ false
        → reserve sys (some a) need m ≡ ok (some a, m)
    unfolding reserve
    reserve-keep need front enough = rw (here, ◌>>=◌, front, enough)

    reserve-enlarge :
        (need : ℕ)
        → c.head ≡ 0
        → ltb c.capacity (need + c.length) ≡ true
        → ltb (need + c.length) int_limit ≡ true
        → reserve sys (some a) need m ≡ enlarge sys a (need + c.length) m
    unfolding reserve
    reserve-enlarge need front short small = rw (here, ◌>>=◌, front, short, small)

    kept-Room :
        (need : ℕ) → c.head ≡ 0 → c.length + need ≤ c.capacity → Room m held (some a) need a m
    kept-Room need front fits = record {
      free' = free;
      held' = held;
      chunk = c;
      inv = v;
      holds = owned;
      at = here;
      head = front;
      fits = fits;
      same = rw here;
      others = λ q hq ne. (hq, refl, λ e. ne (ap some e));
    }

    reserve-some :
        (need : ℕ)
        → c.head ≡ 0
        → need + c.length < int_limit
        → Ensures
            (NoChunk sys m free (need + c.length))
            (RoomPost m held (some a) need)
            (reserve sys (some a) need m)
    reserve-some need front small = elim (Bool-cases (ltb c.capacity (need + c.length))) [
      | inl short ↦
          rw (reserve-enlarge need front short (lt→ltb _ _ small))
            (enlarge-Ensures sys v a c owned here need)
      | inr enough ↦ rw (reserve-keep need front enough) (kept-Room need front (ground arith))
    ]

  -- A buffer whose live bytes begin at offset 0 gets room for `need` more, unless the pool is
  -- exhausted (the program stops) or they pass the largest class (null, and nothing has changed).
  pub reserve-Ensures :
      (b : Buffer) (need : ℕ)
      → Owns held b
      → head_of m.heap b ≡ 0
      → need + live m.heap b < int_limit
      → Ensures
          (NoChunk sys m free (need + live m.heap b))
          (RoomPost m held b need)
          (reserve sys b need m)
  reserve-Ensures none need owned front small = rw add-zero (reserve-none need)
  reserve-Ensures (some a) need owned front small =
      let (c, here, _, _) = v.shape.owned a owned in
      subst
        (λ (o : Option Chunk).
          Ensures (NoChunk sys m free (need + live_at o)) (RoomPost m held (some a) need)
            (reserve sys (some a) need m))
        (sym here)
        (reserve-some a c owned here need (ap head_at (sym here) ∙ front)
          (subst (λ (o : Option Chunk). need + live_at o < int_limit) here small))
