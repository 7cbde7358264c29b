-- ===== src/Memory/Pool/Handout.antt =====
-- The two ways in which `alloc_chunk` hands out a chunk: it makes one, or takes the first of a list.
use high_performance_concurr.Base.{
  ℕ, ◌+◌, ◌/◌, ◌*◌, ◌≤◌, ◌<◌, ◌≡◌, ◌≢◌, refl, ◌⊎◌, inl, inr, Bool, true, false, Option, none, some,
  List, [], ◌∷◌, length, ok, aborted, arith, Bool-cases, Option-cases, ltb, ltb→lt, ap,
}
use high_performance_concurr.Memory.Chunk.{Chunk, make}
use high_performance_concurr.Memory.Store.{Mem, Grant, update}
use high_performance_concurr.Memory.Pool.{max_pool_size, add64, sub64, grow, take_front}
use high_performance_concurr.Memory.Pool.Classes.{IsClass}
use high_performance_concurr.Memory.Pool.FreeList.{update-ne, update-eq}
use high_performance_concurr.Memory.Pool.Shape.{first_chunk, Shape-take, Shape-new, Shape-counters}
use high_performance_concurr.Memory.Pool.Invariant.{
  Inv, Ensures, weight, weight-change, weight-new, lengths-update, lt-brk,
}

-- The chunk at `addr` is handed out: it was not handed out before, it is empty, its capacity is
-- `k`, and every other chunk, handed out or free, is as it was.
pub record Allocated (m : Mem) (held : ℕ → Bool) (k : ℕ) (r : Option ℕ) (m' : Mem) : Type 0 where
  pub addr : ℕ
  pub free' : ℕ → List ℕ
  pub chunk : Chunk
  pub returned : r ≡ some addr
  pub new : held addr ≡ false
  pub at : m'.heap addr ≡ some chunk
  pub size : chunk.capacity ≡ k
  pub empty : (chunk.length ≡ 0) × (chunk.head ≡ 0)
  pub kept : (b : ℕ) → held b ≡ true → m'.heap b ≡ m.heap b
  pub others : (b : ℕ) → b ≢ addr → m'.heap b ≡ m.heap b
  pub inv : Inv m' free' (update held addr true)

-- The list of the class is empty, and a new chunk would pass the limit or `new` fails.
abbrev pub Exhausted : (ℕ → Grant) → Mem → (ℕ → List ℕ) → ℕ → Type 0
Exhausted sys m free k =
    (free k ≡ []) × ((max_pool_size ≤ m.total_kb + k / 1024) ⊎ ((sys m.brk).granted ≡ false))

-- 1024 divides every class, so a class counts for at least 4 kB.
class_kb : (k : ℕ) → IsClass k → (4 ≤ k / 1024) × (k / 1024 ≤ 4096)
class_kb k c = ground arith

pub pool_of_class :
    {m : Mem} {free : ℕ → List ℕ} {held : ℕ → Bool} (v : Inv m free held) (k : ℕ)
    → IsClass k
    → (p : Option ℕ) × (m.pool k ≡ some p)
pool_of_class {m} v k class = elim (Option-cases (m.pool k)) [
  | inl e ↦ absurd (v.full k class e)
  | inr found ↦ found
]

module _ (sys : ℕ → Grant) {m : Mem} {free : ℕ → List ℕ} {held : ℕ → Bool}
    (v : Inv m free held) where
  new_Inv :
      (d : Chunk)
      → IsClass d.capacity
      → d.head + d.length ≤ d.capacity
      → m.total_kb + d.capacity / 1024 < max_pool_size
      → Inv
          (record m {
            heap = update m.heap m.brk (some d);
            brk = m.brk + 1;
            total_kb = m.total_kb + d.capacity / 1024;
          })
          free
          (update held m.brk true)
  new_Inv d class fits room = record {
    shape =
        Shape-counters (Shape-new v.shape d class fits) (m.total_kb + d.capacity / 1024) m.left_kb;
    full = v.full;
    left = v.left;
    total = omega (arith, v.total, weight-new m.brk m.heap held d);
    limit = room;
  }

  grow-new :
      (k : ℕ)
      → ltb (add64 m.total_kb (k / 1024)) max_pool_size ≡ true
      → (sys m.brk).granted ≡ true
      → grow sys k m
        ≡ ok (
          some m.brk,
          record m {
            heap = update m.heap m.brk (some (make k (sys m.brk).garbage));
            brk = m.brk + 1;
            total_kb = add64 m.total_kb (k / 1024);
          },
        )
  unfolding grow
  grow-new k room granted = ground arith

  grow-aborted :
      (k : ℕ)
      → (ltb (add64 m.total_kb (k / 1024)) max_pool_size ≡ false) ⊎ ((sys m.brk).granted ≡ false)
      → grow sys k m ≡ aborted
  unfolding grow
  grow-aborted k h = ground arith

  add64-small : (k : ℕ) → IsClass k → add64 m.total_kb (k / 1024) ≡ m.total_kb + k / 1024
  add64-small k class = omega (arith, v.limit, class_kb k class)

  pub grow-Ensures :
      (k : ℕ)
      → IsClass k
      → free k ≡ []
      → Ensures (Exhausted sys m free k) (Allocated m held k) (grow sys k m)
  grow-Ensures k class none_free =
      elim (Bool-cases (ltb (add64 m.total_kb (k / 1024)) max_pool_size)) [
        | inl room ↦ elim (Bool-cases (sys m.brk).granted) [
          | inl granted ↦
              rw (grow-new k room granted, add64-small k class)
                (record {
                  addr = m.brk;
                  free' = free;
                  chunk = make k (sys m.brk).garbage;
                  returned = refl;
                  new = (v.shape.unused m.brk (omega arith)).1;
                  at = update-eq m.heap m.brk _ m.brk refl;
                  size = refl;
                  empty = (refl, refl);
                  kept = λ b hb.
                      update-ne m.heap m.brk _ b
                        (λ e. cc (hb, (v.shape.unused m.brk (omega arith)).1, e));
                  others = λ b ne. update-ne m.heap m.brk _ b ne;
                  inv =
                      new_Inv (make k (sys m.brk).garbage) class (omega arith)
                        (ltb→lt _ _ (rw (← add64-small k class) room));
                })
          | inr refused ↦ rw (grow-aborted k (inr refused)) (none_free, inr refused)
        ]
        | inr over ↦
            rw (grow-aborted k (inl over))
              (none_free, inl (rw (← add64-small k class) (ground arith)))
      ]

  take_front-eq :
      (k a : ℕ) (c : Chunk)
      → m.heap a ≡ some c
      → take_front k a m
        ≡ ok (
          some a,
          record m {
            heap = update m.heap a (some (record c { next = none }));
            pool = update m.pool k (some c.next);
            left_kb = sub64 m.left_kb (k / 1024);
          },
        )
  unfolding take_front
  take_front-eq k a c at = ground arith

  take_Inv :
      (k a : ℕ) (xs : List ℕ) (c : Chunk)
      → m.pool k ≡ some (some a)
      → free k ≡ a ∷ xs
      → m.heap a ≡ some c
      → Inv
          (record m {
            heap = update m.heap a (some (record c { next = none }));
            pool = update m.pool k (some c.next);
            left_kb = sub64 m.left_kb (k / 1024);
          })
          (update free k xs)
          (update held a true)
  take_Inv k a xs c e cons at =
      let (class, fit, not_held, once, rest) = first_chunk v.shape k a xs c e cons at in
      let longer : length (free k) ≡ length xs + 1 = rw cons (omega arith) in
      let change = lengths-update free k xs class in
      let product : k / 1024 * length (free k) ≡ k / 1024 * length xs + k / 1024 =
        rw longer (omega arith) in
      let no_wrap : sub64 m.left_kb (k / 1024) + k / 1024 ≡ m.left_kb =
        omega (arith, v.left, v.total, v.limit, class_kb k class) in
      let none_held : weight m.heap held a ≡ 0 = rw not_held in
      record {
        shape =
            Shape-counters (Shape-take v.shape k a xs c e cons at) m.total_kb
              (sub64 m.left_kb (k / 1024));
        full = λ j cj. ground (arith, v.full j cj);
        left = omega (arith, v.left);
        total = omega (
          arith,
          v.total,
          ap (λ (x : ℕ). x / 1024) fit.0,
          weight-change m.brk m.heap held a (some (record c { next = none })) true
              (lt-brk a v.shape at),
        );
        limit = v.limit;
      }

  pub take-Ensures :
      (k a : ℕ) (xs : List ℕ) (c : Chunk)
      → m.pool k ≡ some (some a)
      → free k ≡ a ∷ xs
      → m.heap a ≡ some c
      → Ensures (Exhausted sys m free k) (Allocated m held k) (take_front k a m)
  take-Ensures k a xs c e cons at =
      let (class, fit, not_held, once, rest) = first_chunk v.shape k a xs c e cons at in
      let d : Chunk = record c { next = none } in
      rw (take_front-eq k a c at) (record {
        addr = a;
        free' = update free k xs;
        chunk = d;
        returned = refl;
        new = not_held;
        at = update-eq m.heap a (some d) a refl;
        size = fit.0;
        empty = (fit.1, fit.2);
        kept = λ b hb. update-ne m.heap a (some d) b (λ same. cc (hb, not_held, same));
        others = λ b ne. update-ne m.heap a (some d) b ne;
        inv = take_Inv k a xs c e cons at;
      })
