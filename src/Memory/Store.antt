-- ===== src/Memory/Store.antt =====
-- The memory that memory/ works on: the heap of chunks, and the fields of the one `Mempool`
-- (memory/mem_pool.h). Each function of memory/ is a step on it, which can abort or fault.
use high_performance_concurr.Base.{
  ℕ, ◌+◌, Bool, Option, none, some, ◌==◌, if◌then◌else◌, Outcome, ok, aborted, fault,
}
use high_performance_concurr.Memory.Bytes.{Bytes}
use high_performance_concurr.Memory.Chunk.{Chunk, make}

abbrev pub update {ℓ} : {A : Type ℓ} → (ℕ → A) → ℕ → A → ℕ → A
update f p v q = if p == q then v else f q

-- `brk` is the address that the next `new` returns. `pool` is `mp_pool`: no entry, or the head of a
-- list of chunks, which is null when the list is empty.
pub record Mem : Type 0 where
  pub heap : ℕ → Option Chunk
  pub brk : ℕ
  pub pool : ℕ → Option (Option ℕ)
  pub total_kb : ℕ
  pub left_kb : ℕ

-- What the system's allocator does at an address: whether `new (std::nothrow)` succeeds, and what
-- the uninitialised bytes are.
pub record Grant : Type 0 where
  pub granted : Bool
  pub garbage : Bytes

abbrev pub M : Type 0 → Type 0
M A = Mem → Outcome (A × Mem)

abbrev pub pure : {A : Type 0} → A → M A
pure a m = ok (a, m)

abbrev pub abort : {A : Type 0} → M A
abort m = aborted

infixl 5 ◌>>=◌ ◌>>◌
abbrev pub ◌>>=◌ : {A B : Type 0} → M A → (A → M B) → M B
◌>>=◌ step f m = elim (step m) [ ok (a, m') ↦ f a m' | aborted ↦ aborted | fault ↦ fault ]

abbrev pub ◌>>◌ : {B : Type 0} → M (Unit {0}) → M B → M B
step >> k = step >>= λ _. k

-- A computation that does not touch the memory.
abbrev pub lift : {A : Type 0} → Outcome A → M A
lift r m = elim r [ ok a ↦ ok (a, m) | aborted ↦ aborted | fault ↦ fault ]

abbrev pub get : M Mem
get m = ok (m, m)

-- `*p`, read and written.
abbrev pub load : ℕ → M Chunk
load p m = elim (m.heap p) [ none ↦ fault | some c ↦ ok (c, m) ]

abbrev pub store : ℕ → Chunk → M (Unit {0})
store p c m = ok (tt, record m { heap = update m.heap p (some c) })

-- `mp_pool[k] = head`.
abbrev pub set_pool : ℕ → Option ℕ → M (Unit {0})
set_pool k head m = ok (tt, record m { pool = update m.pool k (some head) })

-- `mp_pool[k]` as a value: a key that is missing is inserted with a null head.
abbrev pub pool_at : ℕ → M (Option ℕ)
pool_at k m = elim (m.pool k) [
  | none ↦ ok (none, record m { pool = update m.pool k (some none) })
  | some head ↦ ok (head, m)
]

abbrev pub set_total : ℕ → M (Unit {0})
set_total n m = ok (tt, record m { total_kb = n })

abbrev pub set_left : ℕ → M (Unit {0})
set_left n m = ok (tt, record m { left_kb = n })

-- `new (std::nothrow) Chunk(size)` and the `exit(1)` behind it where it fails.
module _ (sys : ℕ → Grant) where
  abbrev pub new_chunk : ℕ → M ℕ
  new_chunk size m =
      if (sys m.brk).granted
      then ok (
        m.brk,
        record m {
          heap = update m.heap m.brk (some (make size (sys m.brk).garbage));
          brk = m.brk + 1;
        },
      )
      else aborted
