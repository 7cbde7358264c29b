-- ===== src/Memory/Pool.antt =====
-- memory/mem_pool.h and memory/mem_pool.cpp: `Mempool`, a singleton. Its methods run under
-- `mp_mutex`, so each is one step on the memory.
pub mod Classes
pub mod FreeList
pub mod Shape
pub mod Invariant
pub mod Handout
pub mod Alloc
pub mod Retrieve
pub mod Write
pub mod Link
pub mod MemInit
pub mod Init
pub mod Sums
pub mod Listing
use high_performance_concurr.Base.{
  ℕ, zero, suc, ◌+◌, ◌-◌, ◌*◌, ◌/◌, ◌%◌, ◌^◌, Option, none, some, ltb, leb, if◌then◌else◌, check,
  Bool, true, false,
}
use high_performance_concurr.Memory.Store.{
  Grant, M, pure, ◌>>=◌, ◌>>◌, lift, get, load, store, set_pool, pool_at, set_total, set_left,
  new_chunk,
}

-- `MEM_CAP` and `MEM_CAP_MULTI_POWER`.
abbrev pub m_low : ℕ
m_low = 4096

abbrev pub cap_multi_power : ℕ
cap_multi_power = 4

abbrev pub m4k : ℕ
m4k = m_low

abbrev pub m16k : ℕ
m16k = m4k * cap_multi_power

abbrev pub m64k : ℕ
m64k = m16k * cap_multi_power

abbrev pub m256k : ℕ
m256k = m64k * cap_multi_power

abbrev pub m1m : ℕ
m1m = m256k * cap_multi_power

abbrev pub m4m : ℕ
m4m = m1m * cap_multi_power

abbrev pub m_up : ℕ
m_up = 4194304

-- `MAX_POOL_SIZE`, in kB.
abbrev pub max_pool_size : ℕ
max_pool_size = 4 * 1024 * 1024

-- `uint64_t` sums and differences.
abbrev pub add64 : ℕ → ℕ → ℕ
add64 a b = (a + b) % 2 ^ 64

abbrev pub sub64 : ℕ → ℕ → ℕ
sub64 a b = (a + 2 ^ 64 - b) % 2 ^ 64

-- The loop of `alloc_chunk`, from `index` on. Fuel: six rounds find a class or leave the range.
unfoldable pub class_from : ℕ → ℕ → ℕ → Option ℕ
class_from zero index n = none
class_from (suc fuel) index n =
    let rest = class_from fuel (index * 4) n in
    if leb index m_up then (if leb n index then some index else rest) else none

unfoldable pub class_of : ℕ → Option ℕ
unfolding class_from
class_of n = class_from 7 m_low n

-- `alloc_chunk` where the list is not empty: its first chunk.
unfoldable pub take_front : ℕ → ℕ → M (Option ℕ)
take_front index a = do
  c ← load a
  set_pool index c.next
  store a (record c { next = none })
  m ← get
  set_left (sub64 m.left_kb (index / 1024))
  pure (some a)

-- The loop of `mem_init`: `k` more chunks behind `prev`.
module _ (sys : ℕ → Grant) where
  unfoldable pub extend : ℕ → ℕ → ℕ → M (Unit {0})
  extend size prev zero = pure tt
  extend size prev (suc k) = do
    a ← new_chunk sys size
    c ← load prev
    store prev (record c { next = some a })
    extend size a k

  unfoldable pub mem_init : ℕ → ℕ → M (Unit {0})
  mem_init size chunk_num = do
    first ← new_chunk sys size
    set_pool size (some first)
    extend size first (chunk_num - 1)
    m ← get
    set_total (add64 m.total_kb (size / 1024 * chunk_num))

  -- `Mempool::Mempool`.
  unfoldable pub init : M (Unit {0})
  init = do
    mem_init 4096 2000
    mem_init 16384 500
    mem_init 65536 250
    mem_init 262144 100
    mem_init 1048576 25
    mem_init 4194304 10
    m ← get
    set_left m.total_kb

  -- `alloc_chunk` where the list is empty: a new chunk, which counts as allocated and not as left.
  unfoldable pub grow : ℕ → M (Option ℕ)
  grow index = do
    m ← get
    lift (check (ltb (add64 m.total_kb (index / 1024)) max_pool_size))
    a ← new_chunk sys index
    set_total (add64 m.total_kb (index / 1024))
    pure (some a)

  unfoldable pub alloc_class : ℕ → M (Option ℕ)
  alloc_class index = do
    front ← pool_at index
    elim front [ none ↦ grow index | some a ↦ take_front index a ]

  -- `Mempool::alloc_chunk`: `none` is a null pointer.
  unfoldable pub alloc_chunk : ℕ → M (Option ℕ)
  alloc_chunk n = elim (class_of n) [ none ↦ pure none | some index ↦ alloc_class index ]

abbrev pub has_key : Option (Option ℕ) → Bool
has_key none = false
has_key (some _) = true

-- `Mempool::retrieve`.
unfoldable pub retrieve : ℕ → M (Unit {0})
retrieve a = do
  block ← load a
  let index = block.capacity
  store a (record block { length = 0; head = 0 })
  m ← get
  lift (check (has_key (m.pool index)))
  front ← pool_at index
  block ← load a
  store a (record block { next = front })
  set_pool index (some a)
  set_left (add64 m.left_kb (index / 1024))
