-- ===== src/Memory/Pool/Init.antt =====
-- The constructor of `Mempool`: six lists of new chunks.
use high_performance_concurr.Base.{
  ℕ, zero, suc, ◌+◌, ◌-◌, ◌/◌, ◌*◌, ◌<◌, ◌≡◌, ◌≢◌, refl, Bool, true, false, Option, none, some,
  List, [], ◌∷◌, ◌^◌, ok, arith,
}
use high_performance_concurr.Memory.Chunk.{Chunk}
use high_performance_concurr.Memory.Store.{Mem, Grant, update, ◌>>=◌}
use high_performance_concurr.Memory.Pool.{max_pool_size, mem_init, init}
use high_performance_concurr.Memory.Pool.Classes.{IsClass}
use high_performance_concurr.Memory.Pool.Sums.{sum_below}
use high_performance_concurr.Memory.Pool.Invariant.{Inv, weight}
use high_performance_concurr.Memory.Pool.Link.{run_of, nobody}
use high_performance_concurr.Memory.Pool.MemInit.{Part, mem_init-Part}

-- The memory when the program starts.
abbrev pub no_memory : Mem
no_memory = record { heap = λ a. none; brk = 0; pool = λ k. none; total_kb = 0; left_kb = 0 }

no_memory-Part : Part no_memory (λ k. [])
no_memory-Part = record {
  shape = record { lists = λ k p e. cc; unused = λ b above. (refl, refl); owned = λ b h. cc };
  absent = λ k e. refl;
  sum = refl;
}

nothing_held : (n : ℕ) (heap : ℕ → Option Chunk) → sum_below n (weight heap nobody) ≡ 0
nothing_held zero heap = refl
nothing_held (suc n) heap = omega (arith, nothing_held n heap)

-- `mp_left_size_kb = mp_total_size_kb`, once every list is made.
complete-Inv :
    {m : Mem} {free : ℕ → List ℕ}
    → Part m free
    → ((k : ℕ) → IsClass k → m.pool k ≢ none)
    → m.total_kb < max_pool_size
    → Inv (record m { left_kb = m.total_kb }) free nobody
complete-Inv {m} part full limit = record {
  shape = record { lists = part.shape.lists; unused = part.shape.unused; owned = part.shape.owned };
  full = full;
  left = part.sum;
  total = omega (arith, nothing_held m.brk m.heap);
  limit = limit;
}

-- How far the constructor has come: the keys that are there, and the sum in kB.
record Stage (keys : ℕ → Bool) (kb : ℕ) (m : Mem) : Type 0 where
  free : ℕ → List ℕ
  part : Part m free
  there : (k : ℕ) → keys k ≡ true → m.pool k ≢ none
  missing : (k : ℕ) → keys k ≡ false → m.pool k ≡ none
  total : m.total_kb ≡ kb

start-Stage : Stage (λ k. false) 0 no_memory
start-Stage = record {
  free = λ k. [];
  part = no_memory-Part;
  there = λ k e. cc;
  missing = λ k e. refl;
  total = refl;
}

update-there :
    (m' : Mem) (pool : ℕ → Option (Option ℕ)) (keys : ℕ → Bool) (size : ℕ) (head : Option ℕ)
    → ((k : ℕ) → keys k ≡ true → pool k ≢ none)
    → m'.pool ≡ update pool size (some head)
    → (k : ℕ) → update keys size true k ≡ true
    → m'.pool k ≢ none
update-there m' pool keys size head old e k = rw e (ground (arith, old k))

update-missing :
    (m' : Mem) (pool : ℕ → Option (Option ℕ)) (keys : ℕ → Bool) (size : ℕ) (head : Option ℕ)
    → ((k : ℕ) → keys k ≡ false → pool k ≡ none)
    → m'.pool ≡ update pool size (some head)
    → (k : ℕ) → update keys size true k ≡ false
    → m'.pool k ≡ none
update-missing m' pool keys size head old e k = rw e (ground (arith, old k))

module _ (sys : ℕ → Grant) (granted : (a : ℕ) → (sys a).granted ≡ true) where
  next-Stage :
      (size count : ℕ) {keys : ℕ → Bool} {kb : ℕ} {m : Mem}
      → IsClass size
      → 0 < count
      → keys size ≡ false
      → kb + size / 1024 * count < 2 ^ 64
      → Stage keys kb m
      → (m' : Mem) × (mem_init sys size count m ≡ ok (tt, m'))
        × Stage (update keys size true) (kb + size / 1024 * count) m'
  next-Stage size count {keys} {kb} {m} class some_count new small s =
      let (m', ran, part, pool, total) =
        mem_init-Part sys granted size count class some_count (s.missing size new)
          (rw s.total small) s.part in
      (
        m',
        ran,
        record {
          free = update s.free size (m.brk ∷ run_of (m.brk + 1) (count - 1));
          part = part;
          there = update-there m' m.pool keys size (some m.brk) s.there pool;
          missing = update-missing m' m.pool keys size (some m.brk) s.missing pool;
          total = rw (total, s.total);
        },
      )

  init-eq :
      (m0 : Mem) {m1 m2 m3 m4 m5 m6 : Mem}
      → mem_init sys 4096 2000 m0 ≡ ok (tt, m1)
      → mem_init sys 16384 500 m1 ≡ ok (tt, m2)
      → mem_init sys 65536 250 m2 ≡ ok (tt, m3)
      → mem_init sys 262144 100 m3 ≡ ok (tt, m4)
      → mem_init sys 1048576 25 m4 ≡ ok (tt, m5)
      → mem_init sys 4194304 10 m5 ≡ ok (tt, m6)
      → init sys m0 ≡ ok (tt, record m6 { left_kb = m6.total_kb })
  unfolding init
  init-eq m0 e1 e2 e3 e4 e5 e6 =
      rw (e1, ◌>>=◌, e2, ◌>>=◌, e3, ◌>>=◌, e4, ◌>>=◌, e5, ◌>>=◌, e6, ◌>>=◌)

  -- Where every `new` succeeds, the constructor ends with a pool in good order that has handed
  -- out nothing and owns 124160 kB, all of them left.
  pub init-Inv :
      (m' : Mem) × (free : ℕ → List ℕ) × (init sys no_memory ≡ ok (tt, m'))
      × Inv m' free nobody
      × (m'.total_kb ≡ 124160)
      × (m'.left_kb ≡ 124160)
  init-Inv =
      let (m1, e1, s1) =
        next-Stage 4096 2000 (omega arith) (omega arith) refl (omega arith) start-Stage in
      let (m2, e2, s2) = next-Stage 16384 500 (omega arith) (omega arith) refl (omega arith) s1 in
      let (m3, e3, s3) = next-Stage 65536 250 (omega arith) (omega arith) refl (omega arith) s2 in
      let (m4, e4, s4) = next-Stage 262144 100 (omega arith) (omega arith) refl (omega arith) s3 in
      let (m5, e5, s5) = next-Stage 1048576 25 (omega arith) (omega arith) refl (omega arith) s4 in
      let (m6, e6, s6) = next-Stage 4194304 10 (omega arith) (omega arith) refl (omega arith) s5 in
      (
        record m6 { left_kb = m6.total_kb },
        s6.free,
        init-eq no_memory e1 e2 e3 e4 e5 e6,
        complete-Inv s6.part (λ k class. s6.there k (ground arith)) (rw s6.total (omega arith)),
        s6.total,
        s6.total,
      )
