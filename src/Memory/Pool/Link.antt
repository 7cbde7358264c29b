-- ===== src/Memory/Pool/Link.antt =====
-- The loop of `mem_init`: new chunks of one class, linked as they are made.
use high_performance_concurr.Base.{
  ℕ, zero, suc, ◌+◌, ◌≤◌, ◌<◌, ◌≡◌, ◌≢◌, refl, sym, ap, ◌∙◌, Bool, true, false, Option, none, some,
  List, [], ◌∷◌, length, ok, arith,
}
use high_performance_concurr.Memory.Chunk.{Chunk, make}
use high_performance_concurr.Memory.Store.{Mem, Grant, update, ◌>>=◌}
use high_performance_concurr.Memory.Pool.{extend}
use high_performance_concurr.Memory.Pool.FreeList.{Seg, NotIn, update-ne, update-eq}

-- The addresses from `a` on, `n` of them.
unfoldable pub run_of : ℕ → ℕ → List ℕ
run_of a zero = []
run_of a (suc n) = a ∷ run_of (a + 1) n

pub length-run_of : (a n : ℕ) → length (run_of a n) ≡ n
unfolding run_of
length-run_of a zero = refl
length-run_of a (suc n) = ap suc (length-run_of (a + 1) n)

NotIn-run_of : (b a n : ℕ) → b < a → NotIn b (run_of a n)
unfolding run_of
NotIn-run_of b a zero h = tt
NotIn-run_of b a (suc n) h = (λ e. absurd (omega arith), NotIn-run_of b (a + 1) n (omega arith))

-- No chunk is handed out.
abbrev pub nobody : ℕ → Bool
nobody a = false

-- What a loop that only makes chunks of class `k` has done: from `p` the heap holds the list `xs`,
-- the chunks below the old `brk`, but for one, are as they were, and nothing else has changed.
pub record Linked (m : Mem) (k n but : ℕ) (m' : Mem) : Type 0 where
  pub brk : m'.brk ≡ m.brk + n
  pub old : (b : ℕ) → b < m.brk → b ≢ but → m'.heap b ≡ m.heap b
  pub unused : (b : ℕ) → m'.brk ≤ b → m'.heap b ≡ none
  pub pool : m'.pool ≡ m.pool
  pub total : m'.total_kb ≡ m.total_kb
  pub left : m'.left_kb ≡ m.left_kb

module _ (sys : ℕ → Grant) (granted : (a : ℕ) → (sys a).granted ≡ true) where
  -- The heap with one more chunk.
  abbrev pub with_new : Mem → ℕ → ℕ → Option Chunk
  with_new m size = update m.heap m.brk (some (make size (sys m.brk).garbage))

  -- The memory behind one round of the loop of `mem_init`.
  abbrev pub linked_once : Mem → ℕ → ℕ → Chunk → Mem
  linked_once m size prev c = record m {
    heap = update (with_new m size) prev (some (record c { next = some m.brk }));
    brk = m.brk + 1;
  }

  linked_once-new :
      (m : Mem) (size prev : ℕ) (c : Chunk)
      → prev ≢ m.brk
      → (linked_once m size prev c).heap m.brk ≡ some (make size (sys m.brk).garbage)
  linked_once-new m size prev c ne =
      update-ne (with_new m size) prev (some (record c { next = some m.brk })) m.brk
        (λ e. ne (sym e))
      ∙ update-eq m.heap m.brk (some (make size (sys m.brk).garbage)) m.brk refl

  linked_once-old :
      (m : Mem) (size prev : ℕ) (c : Chunk) (b : ℕ)
      → b < m.brk
      → b ≢ prev
      → (linked_once m size prev c).heap b ≡ m.heap b
  linked_once-old m size prev c b lower other =
      update-ne (with_new m size) prev (some (record c { next = some m.brk })) b other
      ∙ update-ne m.heap m.brk (some (make size (sys m.brk).garbage)) b (λ e. absurd (omega arith))

  linked_once-unused :
      (m : Mem) (size prev : ℕ) (c : Chunk)
      → prev < m.brk
      → ((b : ℕ) → m.brk ≤ b → m.heap b ≡ none)
      → (b : ℕ) → m.brk + 1 ≤ b
      → (linked_once m size prev c).heap b ≡ none
  linked_once-unused m size prev c below unused b above =
      update-ne (with_new m size) prev (some (record c { next = some m.brk })) b
        (λ e. absurd (omega arith))
      ∙ update-ne m.heap m.brk (some (make size (sys m.brk).garbage)) b (λ e. absurd (omega arith))
      ∙ unused b (omega arith)

  extend-zero : (size prev : ℕ) (m : Mem) → extend sys size prev zero m ≡ ok (tt, m)
  unfolding extend
  extend-zero size prev m = refl

  extend-suc :
      (size prev n : ℕ) (m : Mem) (c : Chunk)
      → prev ≢ m.brk
      → m.heap prev ≡ some c
      → extend sys size prev (suc n) m ≡ extend sys size m.brk n (linked_once m size prev c)
  unfolding extend
  extend-suc size prev n m c ne at = rw (
    granted m.brk,
    ◌>>=◌,
    update-ne m.heap m.brk (some (make size (sys m.brk).garbage)) prev ne ∙ at,
  )

  -- The loop ends with the chunks linked behind `prev`, in the order in which they were made.
  pub extend-Seg :
      (size n prev : ℕ) (m : Mem) (c : Chunk)
      → m.heap prev ≡ some c
      → (c.capacity ≡ size) × (c.length ≡ 0) × (c.head ≡ 0) × (c.next ≡ none)
      → prev < m.brk
      → ((b : ℕ) → m.brk ≤ b → m.heap b ≡ none)
      → (m' : Mem) × (extend sys size prev n m ≡ ok (tt, m'))
        × Seg m'.heap nobody size (some prev) (prev ∷ run_of m.brk n)
        × Linked m size n prev m'
  unfolding run_of
  extend-Seg size zero prev m c at fit below unused = (
    m,
    extend-zero size prev m,
    (c, refl, at, (fit.0, fit.1, fit.2), refl, tt, fit.3),
    record {
      brk = omega arith;
      old = λ b lower other. refl;
      unused = unused;
      pool = refl;
      total = refl;
      left = refl;
    },
  )
  extend-Seg size (suc n) prev m c at fit below unused =
      let new = make size (sys m.brk).garbage in
      let ne : prev ≢ m.brk = λ e. absurd (omega arith) in
      let (m', run, seg, linked) =
        extend-Seg size n m.brk (linked_once m size prev c) new (linked_once-new m size prev c ne)
          (refl, refl, refl, refl) (omega arith) (linked_once-unused m size prev c below unused) in
      (
        m',
        extend-suc size prev n m c ne at ∙ run,
        (
          record c { next = some m.brk },
          refl,
          linked.old prev (omega arith) ne
              ∙ update-eq (with_new m size) prev (some (record c { next = some m.brk })) prev refl,
          (fit.0, fit.1, fit.2),
          refl,
          NotIn-run_of prev m.brk (suc n) below,
          seg,
        ),
        record {
          brk = omega (arith, linked.brk);
          old = λ b lower other.
              linked.old b (omega arith) (λ e. absurd (omega arith))
              ∙ linked_once-old m size prev c b lower other;
          unused = linked.unused;
          pool = linked.pool;
          total = linked.total;
          left = linked.left;
        },
      )
