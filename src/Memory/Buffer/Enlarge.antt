-- ===== src/Memory/Buffer/Enlarge.antt =====
-- `read_from_fd` and `write2buf` where the chunk is too small: a larger one takes its place.
use high_performance_concurr.Base.{
  ◌∷◌, ℕ, ◌+◌, ◌≤◌, ◌≡◌, ◌≢◌, refl, sym, ap, ◌∙◌, subst, Bool, true, false, Option, none, some,
  List, Outcome, ok, aborted, fault, arith,
}
use high_performance_concurr.Memory.Bytes.{blit, slice-blit_self}
use high_performance_concurr.Memory.Chunk
use high_performance_concurr.Memory.Chunk.{Chunk, contents}
use high_performance_concurr.Memory.Store.{Mem, Grant, update, ◌>>=◌}
use high_performance_concurr.Memory.Pool.{alloc_chunk, retrieve}
use high_performance_concurr.Memory.Pool.Classes.{IsBest}
use high_performance_concurr.Memory.Pool.FreeList.{update-ne, update-eq}
use high_performance_concurr.Memory.Pool.Invariant.{Inv, Ensures, Ensures-map}
use high_performance_concurr.Memory.Pool.Handout.{Allocated, Exhausted}
use high_performance_concurr.Memory.Pool.Alloc.{AllocPost, alloc_chunk-AllocPost}
use high_performance_concurr.Memory.Pool.Retrieve.{retrieve-Inv}
use high_performance_concurr.Memory.Pool.Write.{Inv-write}
use high_performance_concurr.Memory.Buffer.Room.{Room, RoomPost, NoChunk}
use high_performance_concurr.Memory.Buffer.{enlarge}

module _ (sys : ℕ → Grant) {m : Mem} {free : ℕ → List ℕ} {held : ℕ → Bool}
    (v : Inv m free held) where
  module _ (a : ℕ) (c : Chunk) (owned : held a ≡ true) (here : m.heap a ≡ some c) where
    enlarge-null :
        (size : ℕ) → alloc_chunk sys size m ≡ ok (none, m) → enlarge sys a size m ≡ ok (none, m)
    unfolding enlarge
    enlarge-null size e = rw (e, ◌>>=◌)

    enlarge-aborted : (size : ℕ) → alloc_chunk sys size m ≡ aborted → enlarge sys a size m ≡ aborted
    unfolding enlarge
    enlarge-aborted size e = rw (e, ◌>>=◌)

    enlarge-eq :
        (size p : ℕ) (m1 m3 : Mem) (d0 d : Chunk)
        → alloc_chunk sys size m ≡ ok (some p, m1)
        → m1.heap p ≡ some d0
        → m1.heap a ≡ some c
        → Chunk.copy d0 c ≡ ok d
        → retrieve a (record m1 { heap = update m1.heap p (some d) }) ≡ ok (tt, m3)
        → enlarge sys a size m ≡ ok (some p, m3)
    unfolding enlarge
    enlarge-eq size p m1 m3 d0 d e1 e2 e3 e4 e5 = rw (e1, ◌>>=◌, e2, e3, e4, e5, ◌>>=◌)

    -- The copy behind `copy`.
    abbrev copied : Chunk → Chunk
    copied d0 = record d0 {
      bytes = blit d0.bytes 0 c.bytes c.head c.length;
      head = 0;
      length = c.length;
    }

    copy-eq :
        (d0 : Chunk)
        → c.head + c.length ≤ c.capacity
        → c.length ≤ d0.capacity
        → Chunk.copy d0 c ≡ ok (copied d0)
    unfolding Chunk.copy
    copy-eq d0 inside fits = ground arith

    -- Once a larger chunk is there, the bytes move to it, and the old chunk goes back.
    enlarged :
        (need k : ℕ) (r : Option ℕ) (m1 : Mem)
        → need + c.length ≤ k
        → alloc_chunk sys (need + c.length) m ≡ ok (r, m1)
        → Allocated m held k r m1
        → (p : ℕ) × (m3 : Mem) × (enlarge sys a (need + c.length) m ≡ ok (some p, m3))
          × Room m held (some a) need p m3
    enlarged need k r m1 fits run al =
        let p = al.addr in
        let d = copied al.chunk in
        let (c', at', _, inside) = v.shape.owned a owned in
        let one : c' ≡ c = cc in
        let inside' : c.head + c.length ≤ c.capacity =
          subst (λ (x : Chunk). x.head + x.length ≤ x.capacity) one inside in
        let other : p ≢ a = λ e. cc (al.new, owned, e) in
        let holds : update held p true p ≡ true = update-eq held p true p refl in
        let still : update held p true a ≡ true =
          update-ne held p true a (λ e. other (sym e)) ∙ owned in
        let written =
          Inv-write {c = al.chunk} p d al.inv holds al.at refl (omega (arith, al.size)) in
        let (c2, m3, at2, ran, inv3, rest) = retrieve-Inv written a still in
        (
          p,
          m3,
          enlarge-eq (need + c.length) p m1 m3 al.chunk d (rw (← al.returned) run) al.at
              (al.kept a owned ∙ here) (copy-eq al.chunk inside' (omega (arith, al.size))) ran,
          record {
            free' = update al.free' c2.capacity (a ∷ al.free' c2.capacity);
            held' = update (update held p true) a false;
            chunk = d;
            inv = inv3;
            holds = update-ne (update held p true) a false p other ∙ holds;
            at = rest p other ∙ update-eq m1.heap p (some d) p refl;
            head = refl;
            fits = omega (arith, al.size);
            same = rw here (slice-blit_self al.chunk.bytes c.bytes 0 c.head c.length);
            others = λ q hq ne.
                let not_a : q ≢ a = λ e. ne (ap some (sym e)) in
                let not_p : q ≢ p = λ e. cc (al.new, hq, e) in
                (
                  update-ne (update held p true) a false q not_a
                      ∙ update-ne held p true q not_p
                      ∙ hq,
                  rest q not_a ∙ update-ne m1.heap p (some d) q not_p ∙ al.kept q hq,
                  λ e. not_p (sym e),
                );
          },
        )

    -- Whatever `alloc_chunk` answers, `enlarge` has room, or null, or aborts with it.
    enlarge_cases :
        (need k : ℕ) (r : Outcome (Option ℕ × Mem))
        → need + c.length ≤ k
        → alloc_chunk sys (need + c.length) m ≡ r
        → Ensures (Exhausted sys m free k) (Allocated m held k) r
        → Ensures
            (Exhausted sys m free k)
            (RoomPost m held (some a) need)
            (enlarge sys a (need + c.length) m)
    enlarge_cases need k (ok (r, m1)) fits run al =
        let (p, m3, e, room) = enlarged need k r m1 fits run al in rw e room
    enlarge_cases need k aborted fits run x = rw (enlarge-aborted (need + c.length) run) x
    enlarge_cases need k fault fits run x = absurd x

    pub enlarge-Ensures :
        (need : ℕ)
        → Ensures
            (NoChunk sys m free (need + c.length))
            (RoomPost m held (some a) need)
            (enlarge sys a (need + c.length) m)
    enlarge-Ensures need =
        let (choice, best, post) = alloc_chunk-AllocPost sys v (need + c.length) in
        by_choice choice best post
      where
        by_choice :
            (choice : Option ℕ)
            → IsBest (need + c.length) choice
            → AllocPost sys v choice (alloc_chunk sys (need + c.length) m)
            → Ensures
                (NoChunk sys m free (need + c.length))
                (RoomPost m held (some a) need)
                (enlarge sys a (need + c.length) m)
        by_choice none best post = rw (enlarge-null (need + c.length) post) (refl, rw here best)
        by_choice (some k) best post =
            Ensures-map (Exhausted sys m free k) (NoChunk sys m free (need + c.length))
              (RoomPost m held (some a) need) (RoomPost m held (some a) need)
              (enlarge sys a (need + c.length) m) (λ x. (k, best, x)) (λ r m' x. x)
              (enlarge_cases need k (alloc_chunk sys (need + c.length) m) best.1 refl post)
