-- ===== src/Log/Queue.antt =====
-- log/log_queue.h: `buffer_queue<T>`, a ring with a capacity. Each method runs under `b_mutex`; a
-- `pop` that finds the queue empty gives the lock up while it waits, so it is two steps, before and
-- after the wait, between which other threads may take theirs.
pub mod Ring
pub mod Fifo
pub mod Refine
pub mod Run
use high_performance_concurr.Base.{
  ℕ, zero, suc, ◌+◌, ◌^◌, ◌-◌, ◌%◌, Bool, true, false, Option, none, some, List, Outcome, ok, fault,
  ◌>>=◌, ◌>>◌, check, get_elem?, set, replicate, length, leb, ltb, ◌==◌, if◌then◌else◌,
}

-- An `int` that may be negative: `negsuc n` is -(n + 1).
pub data ℤ : Type 0 where
  pos : ℕ → ℤ
  negsuc : ℕ → ℤ

pub record Queue {ℓ} (A : Type ℓ) : Type ℓ where
  pub items : List A
  pub rcnt : ℕ
  pub wcnt : ℕ
  pub debug : Bool
  pub first : ℤ
  pub last : ℤ
  pub size : ℕ
  pub capacity : ℕ

-- `-n`.
abbrev pub neg : ℕ → ℤ
neg zero = pos 0
neg (suc n) = negsuc n

-- A `long long`, returned as an `int`: its low 32 bits, as a signed number.
abbrev pub to_int : ℕ → ℤ
to_int n =
    let low : ℕ = n % 2 ^ 32 in if ltb low (2 ^ 31) then pos low else negsuc (2 ^ 32 - 1 - low)

-- `(i + 1) % capacity`, whose remainder has the sign of `i + 1`.
abbrev pub next_index : ℤ → ℕ → ℤ
next_index (pos n) cap = pos ((n + 1) % cap)
next_index (negsuc zero) cap = pos (0 % cap)
next_index (negsuc (suc n)) cap = neg (suc n % cap)

-- `i + 1`.
abbrev pub plus_one : ℤ → ℤ
plus_one (pos n) = pos (n + 1)
plus_one (negsuc zero) = pos 0
plus_one (negsuc (suc n)) = negsuc n

-- What the first part of a `pop` can come to, and the second: an item, or `false`.
pub data Popped {ℓ} (A : Type ℓ) : Type ℓ where
  waits : Popped A
  got : A → Popped A
  failed : Popped A

module _ {ℓ} {A : Type ℓ} where
  -- `b_array[i]`, read and written.
  abbrev pub read_at : List A → ℤ → Outcome A
  read_at xs (negsuc n) = fault
  read_at xs (pos n) = elim (get_elem? xs n) [ none ↦ fault | some x ↦ ok x ]

  abbrev pub write_at : List A → ℤ → A → Outcome (List A)
  write_at xs (negsuc n) x = fault
  write_at xs (pos n) x = if ltb n (length xs) then ok (set xs n x) else fault

  -- `buffer_queue(int max_size, bool debug)`; none where it throws. `dflt` is `T()`.
  unfoldable pub make : A → ℤ → Bool → Option (Queue A)
  make dflt (negsuc n) debug = none
  make dflt (pos zero) debug = none
  make dflt (pos (suc n)) debug = some (record {
    items = replicate (suc n) dflt;
    rcnt = 0;
    wcnt = 0;
    debug = debug;
    first = negsuc 0;
    last = negsuc 0;
    size = 0;
    capacity = suc n;
  })

  -- `buffer_queue()`, with the capacity that the field has at first.
  unfoldable pub make_default : A → Option (Queue A)
  unfolding make
  make_default dflt = make dflt (pos 1000) false

  unfoldable pub get_capacity : Queue A → ℕ
  get_capacity q = q.capacity

  unfoldable pub clear : Queue A → Queue A
  clear q = record q {
    rcnt = if q.debug then 0 else q.rcnt;
    wcnt = if q.debug then 0 else q.wcnt;
    first = negsuc 0;
    last = negsuc 0;
    size = 0;
  }

  -- -1 where the queue is not in debug mode.
  unfoldable pub get_rcnt : Queue A → ℤ
  get_rcnt q = if q.debug then to_int q.rcnt else negsuc 0

  unfoldable pub get_wcnt : Queue A → ℤ
  get_wcnt q = if q.debug then to_int q.wcnt else negsuc 0

  unfoldable pub get_size : Queue A → Outcome ℕ
  get_size q = do check (leb q.size q.capacity); ok q.size

  unfoldable pub is_full : Queue A → Bool
  is_full q = q.size == q.capacity

  unfoldable pub is_empty : Queue A → Bool
  is_empty q = q.size == 0

  -- `front`: none where it returns false.
  unfoldable pub front : Queue A → Outcome (Option A)
  front q =
      if q.size == 0 then ok none else (do x ← read_at q.items (plus_one q.first); ok (some x))

  unfoldable pub back : Queue A → Outcome (Option A)
  back q = if q.size == 0 then ok none else (do x ← read_at q.items q.last; ok (some x))

  unfoldable pub push : Queue A → A → Outcome (Queue A × Bool)
  push q item = if leb q.capacity q.size then ok (q, false) else (do
    let last = next_index q.last q.capacity
    items ← write_at q.items last item
    ok (
      record q {
        last = last;
        items = items;
        size = q.size + 1;
        wcnt = if q.debug then q.wcnt + 1 else q.wcnt;
      },
      true,
    ))

  -- What every `pop` ends with, on a queue that is not empty.
  unfoldable pub take_first : Queue A → Outcome (Queue A × Popped A)
  take_first q = do
    let first = next_index q.first q.capacity
    item ← read_at q.items first
    ok (
      record q { first = first; size = q.size - 1; rcnt = if q.debug then q.rcnt + 1 else q.rcnt },
      got item,
    )

  -- `pop`, both of them, up to the wait.
  unfoldable pub pop : Queue A → Outcome (Queue A × Popped A)
  pop q = if q.size == 0 then ok (q, waits) else take_first q

  -- `pop(T &)` behind the wait.
  unfoldable pub pop_woken : Queue A → Outcome (Queue A × Popped A)
  pop_woken q = if q.size == 0 then ok (q, failed) else take_first q

  -- `pop(T &, int)` behind the wait, which may have timed out.
  unfoldable pub pop_timed : Bool → Queue A → Outcome (Queue A × Popped A)
  pop_timed timeout q =
      if timeout then ok (q, failed) else if q.size == 0 then ok (q, failed) else take_first q
