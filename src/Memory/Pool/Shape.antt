-- ===== src/Memory/Pool/Shape.antt =====
-- What the pool's pointers look like, whatever the counters say, and how the four ways to change
-- the heap keep it: a chunk is taken off a list, made, put back, or written by its holder.
use high_performance_concurr.Base.{
  some-injective, subst, ℕ, ◌+◌, ◌≤◌, ◌<◌, ◌≡◌, refl, sym, ◌≢◌, ◌∙◌, Bool, true, false, Option,
  none, some, List, ◌∷◌, arith, ℕ_discrete,
}
use high_performance_concurr.Memory.Chunk.{Chunk}
use high_performance_concurr.Memory.Store.{Mem, update}
use high_performance_concurr.Memory.Pool.Classes.{IsClass}
use high_performance_concurr.Memory.Pool.FreeList.{
  NotIn, Seg, Seg-write, Seg-mark, Seg-NotIn, update-ne, update-eq,
}

-- A chunk that a client may hold: of a class of the pool, with its live bytes inside.
abbrev pub Holds : (ℕ → Option Chunk) → ℕ → Type 0
Holds heap a =
    (c : Chunk) × (heap a ≡ some c) × IsClass c.capacity × (c.head + c.length ≤ c.capacity)

-- `free k` lists the free chunks of class `k`; `held a` says that the chunk at `a` is handed out.
pub record Shape (m : Mem) (free : ℕ → List ℕ) (held : ℕ → Bool) : Type 0 where
  pub lists : (k : ℕ) (p : Option ℕ) → m.pool k ≡ some p → IsClass k × Seg m.heap held k p (free k)
  pub unused : (a : ℕ) → m.brk ≤ a → (m.heap a ≡ none) × (held a ≡ false)
  pub owned : (a : ℕ) → held a ≡ true → Holds m.heap a

Holds-update :
    (heap : ℕ → Option Chunk) (a : ℕ) (d : Chunk) (b : ℕ)
    → IsClass d.capacity
    → d.head + d.length ≤ d.capacity
    → (b ≢ a → Holds heap b)
    → Holds (update heap a (some d)) b
Holds-update heap a d b class fits other = elim (ℕ_discrete b a) [
  | yes e ↦ (d, update-eq heap a (some d) b e, class, fits)
  | no ne ↦
      let (c, at, good, inside) = other ne in (c, update-ne heap a (some d) b ne ∙ at, good, inside)
]

module _ {m : Mem} {free : ℕ → List ℕ} {held : ℕ → Bool} (s : Shape m free held) where
  -- A chunk that is handed out is in no free list.
  pub held-NotIn : (a k : ℕ) (p : Option ℕ) → held a ≡ true → m.pool k ≡ some p → NotIn a (free k)
  held-NotIn a k p h e =
      Seg-NotIn m.heap held k a p (free k) (λ c at fit not_held. cc) (s.lists k p e).1

  -- An address that was never allocated is in no free list.
  pub fresh-NotIn : (k : ℕ) (p : Option ℕ) → m.pool k ≡ some p → NotIn m.brk (free k)
  fresh-NotIn k p e =
      Seg-NotIn m.heap held k m.brk p (free k)
        (λ c at fit not_held. cc ((s.unused m.brk (omega arith)).0)) (s.lists k p e).1

  -- A chunk of another capacity is not in the list of a class.
  pub other-NotIn :
      (a k : ℕ) (p : Option ℕ) (c : Chunk)
      → m.heap a ≡ some c
      → c.capacity ≢ k
      → m.pool k ≡ some p
      → NotIn a (free k)
  other-NotIn a k p c at ne e =
      Seg-NotIn m.heap held k a p (free k) (λ d here fit not_held. ne (cc)) (s.lists k p e).1

  pub held-lt-brk : (a : ℕ) → held a ≡ true → a < m.brk
  held-lt-brk a h = ground (arith, s.unused a)

  -- The holder of a chunk writes it.
  pub Shape-write :
      (a : ℕ) (d : Chunk)
      → held a ≡ true
      → IsClass d.capacity
      → d.head + d.length ≤ d.capacity
      → Shape (record m { heap = update m.heap a (some d) }) free held
  Shape-write a d h class fits = record {
    lists = λ k p e. (
      (s.lists k p e).0,
      Seg-write m.heap held k a (some d) p (free k) (held-NotIn a k p h e) (s.lists k p e).1,
    );
    unused = λ b above. (
      update-ne m.heap a (some d) b (λ same. absurd (ground (arith, held-lt-brk a h)))
          ∙ (s.unused b above).0,
      (s.unused b above).1,
    );
    owned = λ b hb. Holds-update m.heap a d b class fits (λ ne. s.owned b hb);
  }

  -- What is known of the first chunk of a list, and of the rest.
  pub first_chunk :
      (k a : ℕ) (xs : List ℕ) (c : Chunk)
      → m.pool k ≡ some (some a)
      → free k ≡ a ∷ xs
      → m.heap a ≡ some c
      → IsClass k
        × ((c.capacity ≡ k) × (c.length ≡ 0) × (c.head ≡ 0))
        × (held a ≡ false)
        × NotIn a xs
        × Seg m.heap held k c.next xs
  first_chunk k a xs c e cons at =
      let (class, seg) = s.lists k (some a) e in
      let (d, _, here, fit, not_held, once, rest) = subst (Seg m.heap held k (some a)) cons seg in
      let same : d ≡ c = some-injective (sym here ∙ at) in
      (
        class,
        subst (λ (x : Chunk). (x.capacity ≡ k) × (x.length ≡ 0) × (x.head ≡ 0)) same fit,
        not_held,
        once,
        subst (λ (x : Chunk). Seg m.heap held k x.next xs) same rest,
      )

  -- The first chunk of a list is handed out.
  pub Shape-take :
      (k a : ℕ) (xs : List ℕ) (c : Chunk)
      → m.pool k ≡ some (some a)
      → free k ≡ a ∷ xs
      → m.heap a ≡ some c
      → Shape
          (record m {
            heap = update m.heap a (some (record c { next = none }));
            pool = update m.pool k (some c.next);
          })
          (update free k xs)
          (update held a true)
  Shape-take k a xs c e cons at =
      let (class, fit, not_held, once, rest) = first_chunk k a xs c e cons at in
      let d : Chunk = record c { next = none } in
      record {
        lists = λ j p ej. elim (ℕ_discrete j k) [
          | yes same ↦
              let top : some c.next ≡ some p = sym (update-eq m.pool k (some c.next) j same) ∙ ej in
              rw (same, update-eq free k xs k refl, ← some-injective {y = p} top)
                (
                  class,
                  Seg-mark _ held k a true c.next xs once
                      (Seg-write m.heap held k a (some d) c.next xs once rest),
                )
          | no other ↦
              let ej' : m.pool j ≡ some p = sym (update-ne m.pool k (some c.next) j other) ∙ ej in
              let out =
                other-NotIn a j p c at (λ (f : c.capacity ≡ j). other (sym f ∙ fit.0)) ej' in
              rw (update-ne free k xs j other) (
                (s.lists j p ej').0,
                Seg-mark _ held j a true p (free j) out
                    (Seg-write m.heap held j a (some d) p (free j) out (s.lists j p ej').1),
              )
        ];
        unused = λ b above.
            let ne : b ≢ a = λ f. cc (at, (s.unused b above).0, f) in
            (
              update-ne m.heap a (some d) b ne ∙ (s.unused b above).0,
              update-ne held a true b ne ∙ (s.unused b above).1,
            );
        owned = λ b hb.
            Holds-update m.heap a d b (rw fit.0 class) (omega arith)
              (λ ne. s.owned b (sym (update-ne held a true b ne) ∙ hb));
      }

  -- A new chunk is handed out.
  pub Shape-new :
      (d : Chunk)
      → IsClass d.capacity
      → d.head + d.length ≤ d.capacity
      → Shape
          (record m { heap = update m.heap m.brk (some d); brk = m.brk + 1 })
          free
          (update held m.brk true)
  Shape-new d class fits = record {
    lists = λ k p e. (
      (s.lists k p e).0,
      Seg-mark _ held k m.brk true p (free k) (fresh-NotIn k p e)
          (Seg-write m.heap held k m.brk (some d) p (free k) (fresh-NotIn k p e) (s.lists k p e).1),
    );
    unused = λ b above.
        let ne : b ≢ m.brk = λ f. absurd (omega arith) in
        (
          update-ne m.heap m.brk (some d) b ne ∙ (s.unused b (omega arith)).0,
          update-ne held m.brk true b ne ∙ (s.unused b (omega arith)).1,
        );
    owned = λ b hb.
        Holds-update m.heap m.brk d b class fits
          (λ ne. s.owned b (sym (update-ne held m.brk true b ne) ∙ hb));
  }

  -- A chunk goes back to the front of its list.
  pub Shape-put :
      (k a : ℕ) (p : Option ℕ) (c : Chunk)
      → held a ≡ true
      → m.pool k ≡ some p
      → c.capacity ≡ k
      → c.length ≡ 0
      → c.head ≡ 0
      → c.next ≡ p
      → m.heap a ≡ some c
      → Shape
          (record m { pool = update m.pool k (some (some a)) })
          (update free k (a ∷ free k))
          (update held a false)
  Shape-put k a p c h e fit len head next at = record {
    lists = λ j q ej. elim (ℕ_discrete j k) [
      | yes same ↦
          let top : some (some a) ≡ some q = sym (update-eq m.pool k (some (some a)) j same) ∙ ej in
          rw (same, update-eq free k (a ∷ free k) k refl, ← some-injective {y = q} top)
            (
              (s.lists k p e).0,
              (
                c,
                refl,
                at,
                (fit, len, head),
                update-eq held a false a refl,
                held-NotIn a k p h e,
                rw next (
                    Seg-mark m.heap held k a false p (free k) (held-NotIn a k p h e)
                      (s.lists k p e).1),
              ),
            )
      | no other ↦
          let ej' : m.pool j ≡ some q = sym (update-ne m.pool k (some (some a)) j other) ∙ ej in
          rw (update-ne free k (a ∷ free k) j other) (
            (s.lists j q ej').0,
            Seg-mark m.heap held j a false q (free j) (held-NotIn a j q h ej') (s.lists j q ej').1,
          )
    ];
    unused = λ b above. ((s.unused b above).0, ground (arith, s.unused b above));
    owned = λ b hb. s.owned b (ground arith);
  }

  -- The counters play no part.
  pub Shape-counters :
      (total left : ℕ) → Shape (record m { total_kb = total; left_kb = left }) free held
  Shape-counters total left = record { lists = s.lists; unused = s.unused; owned = s.owned }
