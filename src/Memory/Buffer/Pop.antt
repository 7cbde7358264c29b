-- ===== src/Memory/Buffer/Pop.antt =====
-- `BufferBase::pop` and `clear`.
use high_performance_concurr.Base.{
  ◌↔◌, ◌∷◌, ℕ, ◌+◌, ◌-◌, ◌≤◌, ◌≡◌, ◌≢◌, refl, sym, ap, ◌∙◌, subst, Bool, true, false, Option, none,
  some, List, [], length, Outcome, ok, arith, inl, inr, drop, le→leb, ==_iff, ◌==◌, Bool-cases,
}
use high_performance_concurr.Memory.Bytes.{slice, length-slice, drop-slice}
use high_performance_concurr.Memory.Chunk
use high_performance_concurr.Memory.Chunk.{Chunk, contents}
use high_performance_concurr.Memory.Store.{Mem, update, ◌>>=◌}
use high_performance_concurr.Memory.Pool.{retrieve}
use high_performance_concurr.Memory.Pool.FreeList.{update-ne, update-eq}
use high_performance_concurr.Memory.Pool.Invariant.{Inv}
use high_performance_concurr.Memory.Pool.Write.{Inv-write}
use high_performance_concurr.Memory.Pool.Retrieve.{retrieve-Inv}
use high_performance_concurr.Memory.Buffer.Room.{Owns, contents_of, live, live_at}
use high_performance_concurr.Memory.Buffer.{Buffer, pop}

-- Behind `pop` or `clear` the buffer is `b'`; it holds `rest`, and is null exactly if that is
-- nothing. The pool is in good order, what others hold is as it was and still theirs.
pub record Shrunk (m : Mem) (held : ℕ → Bool) (a : ℕ) (rest : List ℕ) (r : Outcome (Buffer × Mem))
    : Type 0 where
  pub b' : Buffer
  pub after : Mem
  pub free' : ℕ → List ℕ
  pub held' : ℕ → Bool
  pub result : r ≡ ok (b', after)
  pub inv : Inv after free' held'
  pub owns : Owns held' b'
  pub bytes : contents_of after.heap b' ≡ rest
  pub null_iff : (b' ≡ none) ↔ (rest ≡ [])
  pub others : (q : ℕ) → held q ≡ true → q ≢ a → (held' q ≡ true) × (after.heap q ≡ m.heap q)

module _ {m : Mem} {free : ℕ → List ℕ} {held : ℕ → Bool} (v : Inv m free held) (a : ℕ)
    (owned : held a ≡ true) where
  module _ (c : Chunk) (here : m.heap a ≡ some c) (inside : c.head + c.length ≤ c.capacity) where
    abbrev shortened : ℕ → Chunk
    shortened len = record c { length = c.length - len; head = c.head + len }

    pop-chunk : (len : ℕ) → len ≤ c.length → Chunk.pop c len ≡ ok (shortened len)
    unfolding Chunk.pop
    pop-chunk len le = rw (le→leb len c.length le)

    abbrev popped : ℕ → Mem
    popped len = record m { heap = update m.heap a (some (shortened len)) }

    pop-left :
        (len : ℕ)
        → len ≤ c.length
        → (c.length - len == 0) ≡ false
        → pop (some a) len m ≡ ok (some a, popped len)
    unfolding pop
    pop-left len le more = rw (here, ◌>>=◌, le→leb len c.length le, pop-chunk len le, more)

    pop-empty :
        (len : ℕ) (m' : Mem)
        → len ≤ c.length
        → (c.length - len == 0) ≡ true
        → retrieve a (popped len) ≡ ok (tt, m')
        → pop (some a) len m ≡ ok (none, m')
    unfolding pop
    pop-empty len m' le done_all ran =
        rw (here, ◌>>=◌, le→leb len c.length le, pop-chunk len le, done_all, ran)

    shortened-Inv : (len : ℕ) → len ≤ c.length → Inv (popped len) free held
    shortened-Inv len le = Inv-write {c = c} a (shortened len) v owned here refl (omega arith)

    rest_of : (len : ℕ) → len ≤ c.length → drop len (contents c) ≡ contents (shortened len)
    rest_of len le = drop-slice c.bytes c.head len c.length le

    not_nil :
        (len : ℕ) → len ≤ c.length → (c.length - len == 0) ≡ false → drop len (contents c) ≢ []
    not_nil len le more e =
        let none_left : c.length - len ≡ 0 =
          sym (length-slice c.bytes (c.head + len) (c.length - len))
          ∙ ap (length {A = ℕ}) (sym (rest_of len le) ∙ e) in
        ground arith

    pop-some :
        (len : ℕ)
        → len ≤ c.length
        → (c.length - len == 0) ≡ false
        → Shrunk m held a (drop len (contents c)) (pop (some a) len m)
    pop-some len le more = record {
      b' = some a;
      after = popped len;
      free' = free;
      held' = held;
      result = pop-left len le more;
      inv = shortened-Inv len le;
      owns = owned;
      bytes = rw (update-eq m.heap a (some (shortened len)) a refl) (sym (rest_of len le));
      null_iff = (λ e. cc, λ e. absurd (not_nil len le more e));
      others = λ q hq ne. (hq, update-ne m.heap a (some (shortened len)) q ne);
    }

    pop_all :
        (len : ℕ)
        → len ≤ c.length
        → (c.length - len == 0) ≡ true
        → Shrunk m held a (drop len (contents c)) (pop (some a) len m)
    pop_all len le done_all =
        let (c2, m', at2, ran, inv', rest) = retrieve-Inv (shortened-Inv len le) a owned in
        let nothing : drop len (contents c) ≡ [] =
          rest_of len le ∙ ap (slice c.bytes (c.head + len)) ((==_iff _ _).0 done_all) in
        record {
          b' = none;
          after = m';
          free' = update free c2.capacity (a ∷ free c2.capacity);
          held' = update held a false;
          result = pop-empty len m' le done_all ran;
          inv = inv';
          owns = tt;
          bytes = sym nothing;
          null_iff = (λ e. nothing, λ e. refl);
          others = λ q hq ne. (
            update-ne held a false q ne ∙ hq,
            rest q ne ∙ update-ne m.heap a (some (shortened len)) q ne,
          );
        }

  -- `pop`, of no more bytes than the buffer holds, leaves what was there without its first `len`
  -- bytes; if that is nothing the chunk goes back to the pool and the buffer is null. It neither
  -- aborts nor faults, the pool stays in good order, and no chunk of another holder changes.
  pub pop-Shrunk :
      (len : ℕ)
      → len ≤ live m.heap (some a)
      → Shrunk m held a (drop len (contents_of m.heap (some a))) (pop (some a) len m)
  pop-Shrunk len le =
      let (c, here, _, inside) = v.shape.owned a owned in
      let le' : len ≤ c.length = subst (λ (o : Option Chunk). len ≤ live_at o) here le in
      rw here (elim (Bool-cases (c.length - len == 0)) [
        | inl done_all ↦ pop_all c here inside len le' done_all
        | inr more ↦ pop-some c here inside len le' more
      ])
