-- ===== src/Memory/Pool/Retrieve.antt =====
-- `retrieve`: a chunk that was handed out goes back to the front of its list.
use high_performance_concurr.Base.{
  ℕ, ◌+◌, ◌/◌, ◌*◌, ◌≡◌, ◌≢◌, refl, ap, ◌∙◌, fun_ext, Bool, true, false, Option, some, List, ◌∷◌,
  length, Outcome, ok, arith,
}
use high_performance_concurr.Memory.Chunk.{Chunk}
use high_performance_concurr.Memory.Store.{Mem, update}
use high_performance_concurr.Memory.Pool.{add64, retrieve}
use high_performance_concurr.Memory.Pool.Classes.{IsClass}
use high_performance_concurr.Memory.Pool.FreeList.{update-ne, update-eq}
use high_performance_concurr.Memory.Pool.Shape.{Shape-write, Shape-put, Shape-counters}
use high_performance_concurr.Memory.Pool.Invariant.{
  Inv, weight, weight-change, lengths-update, lt-brk,
}
use high_performance_concurr.Memory.Pool.Handout.{pool_of_class}

-- The chunk as it is put back.
abbrev pub emptied : Chunk → Option ℕ → Chunk
emptied c front = record c { length = 0; head = 0; next = front }

-- The memory behind `retrieve`.
abbrev pub put_back : Mem → ℕ → Chunk → Option ℕ → Mem
put_back m a c front = record m {
  heap = update m.heap a (some (emptied c front));
  pool = update m.pool c.capacity (some (some a));
  left_kb = add64 m.left_kb (c.capacity / 1024);
}

update-update {ℓ} :
    {A : Type ℓ} (f : ℕ → A) (a : ℕ) (v w : A) → update (update f a v) a w ≡ update f a w
update-update f a v w = fun_ext λ q. ground arith

retrieve-eq :
    (m : Mem) (a : ℕ) (c : Chunk) (front : Option ℕ)
    → m.heap a ≡ some c
    → m.pool c.capacity ≡ some front
    → retrieve a m ≡ ok (tt, put_back m a c front)
unfolding retrieve
retrieve-eq m a c front at e =
    let twice : retrieve a m
        ≡ ok (
          tt,
          record (put_back m a c front) {
            heap =
                update (update m.heap a (some (record c { length = 0; head = 0 }))) a
                  (some (emptied c front));
          },
        ) =
      ground arith in
    twice
    ∙ ap {B = Outcome (Unit {0} × Mem)}
        (λ (h : ℕ → Option Chunk). ok (tt, record (put_back m a c front) { heap = h }))
        (update-update m.heap a _ _)

module _ {m : Mem} {free : ℕ → List ℕ} {held : ℕ → Bool} (v : Inv m free held) where
  pub put_back-Inv :
      (a : ℕ) (c : Chunk) (front : Option ℕ)
      → held a ≡ true
      → m.heap a ≡ some c
      → IsClass c.capacity
      → m.pool c.capacity ≡ some front
      → Inv
          (put_back m a c front)
          (update free c.capacity (a ∷ free c.capacity))
          (update held a false)
  put_back-Inv a c front h at class e =
      let k = c.capacity in
      let d = emptied c front in
      let written = Shape-write v.shape a d h class (omega arith) in
      let change = weight-change m.brk m.heap held a (some d) false (lt-brk a v.shape at) in
      let counted : weight m.heap held a ≡ k / 1024 = rw (h, at) in
      let product : k / 1024 * (length (free k) + 1) ≡ k / 1024 * length (free k) + k / 1024 =
        omega arith in
      let no_wrap : add64 m.left_kb (k / 1024) ≡ m.left_kb + k / 1024 =
        omega (arith, v.total, v.limit) in
      record {
        shape =
            Shape-counters
              (Shape-put written k a front d h e refl refl refl refl
                (update-eq m.heap a (some d) a refl))
              m.total_kb (add64 m.left_kb (k / 1024));
        full = λ j cj. ground (arith, v.full j cj);
        left = omega (arith, v.left, lengths-update free k (a ∷ free k) class);
        total = omega (arith, v.total);
        limit = v.limit;
      }

  -- A chunk that is handed out can be put back: `retrieve` neither aborts nor faults, the chunk is
  -- the first of the free list of its class and is no longer handed out, the pool stays in good
  -- order, and every other chunk is as it was.
  pub retrieve-Inv :
      (a : ℕ)
      → held a ≡ true
      → (c : Chunk) × (m' : Mem) × (m.heap a ≡ some c)
        × (retrieve a m ≡ ok (tt, m'))
        × Inv m' (update free c.capacity (a ∷ free c.capacity)) (update held a false)
        × ((b : ℕ) → b ≢ a → m'.heap b ≡ m.heap b)
  retrieve-Inv a h =
      let (c, at, class, _) = v.shape.owned a h in
      let (front, e) = pool_of_class v c.capacity class in
      (
        c,
        put_back m a c front,
        at,
        retrieve-eq m a c front at e,
        put_back-Inv a c front h at class e,
        λ b ne. update-ne m.heap a (some (emptied c front)) b ne,
      )
