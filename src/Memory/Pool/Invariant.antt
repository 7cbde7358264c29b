-- ===== src/Memory/Pool/Invariant.antt =====
-- The invariant of the pool: its pointers have the right shape, every class has its list, and the
-- two counters count what they say.
use native.Mathlib.Numerals.{add-one}
use high_performance_concurr.Base.{
  refl, ap, ap₂, fun_ext, dec_lt, ◌*◌, ℕ, ◌+◌, ◌/◌, ◌<◌, ◌≡◌, ◌≢◌, Bool, true, Option, none, some,
  List, length, Outcome, ok, aborted, fault, arith, if◌then◌else◌,
}
use high_performance_concurr.Memory.Chunk.{Chunk}
use high_performance_concurr.Memory.Store.{Mem, M, update, ◌>>=◌}
use high_performance_concurr.Memory.Pool.{max_pool_size}
use high_performance_concurr.Memory.Pool.Classes.{IsClass}
use high_performance_concurr.Memory.Pool.Sums.{
  class_sum, class_sum-update, sum_below, sum_below-change, sum_below-congr,
}
use high_performance_concurr.Memory.Pool.FreeList.{update-ne, update-eq}
use high_performance_concurr.Memory.Pool.Shape.{Shape}

abbrev pub kb_at : Option Chunk → ℕ
kb_at none = 0
kb_at (some c) = c.capacity / 1024

-- In kB, what the chunk at an address counts for among those handed out.
abbrev pub weight : (ℕ → Option Chunk) → (ℕ → Bool) → ℕ → ℕ
weight heap held a = if held a then kb_at (heap a) else 0

abbrev pub lengths : (ℕ → List ℕ) → ℕ → ℕ
lengths free k = length (free k)

pub record Inv (m : Mem) (free : ℕ → List ℕ) (held : ℕ → Bool) : Type 0 where
  pub shape : Shape m free held
  pub full : (k : ℕ) → IsClass k → m.pool k ≢ none
  pub left : m.left_kb ≡ class_sum (lengths free)
  pub total : m.total_kb ≡ m.left_kb + sum_below m.brk (weight m.heap held)
  pub limit : m.total_kb < max_pool_size

-- Of a step: what its result and the memory behind it satisfy, and when it may abort. It never
-- faults.
abbrev pub Ensures : {A : Type 0} → Type 0 → (A → Mem → Type 0) → Outcome (A × Mem) → Type 0
Ensures X P (ok (a, m)) = P a m
Ensures X P aborted = X
Ensures X P fault = ⊥

-- The sum over the chunks handed out, when the chunk at one address changes.
pub weight-change :
    (n : ℕ) (heap : ℕ → Option Chunk) (held : ℕ → Bool) (a : ℕ) (v : Option Chunk) (b : Bool)
    → a < n
    → sum_below n (weight (update heap a v) (update held a b)) + weight heap held a
      ≡ sum_below n (weight heap held) + (if b then kb_at v else 0)
weight-change n heap held a v b below = ground (
  arith,
  sum_below-change n (weight (update heap a v) (update held a b)) (weight heap held) a below
      (λ c ne. rw (update-ne heap a v c ne, update-ne held a b c ne)),
)

-- The same when the chunk is a new one.
pub weight-new :
    (n : ℕ) (heap : ℕ → Option Chunk) (held : ℕ → Bool) (d : Chunk)
    → sum_below (n + 1) (weight (update heap n (some d)) (update held n true))
      ≡ sum_below n (weight heap held) + d.capacity / 1024
weight-new n heap held d = rw add-one (
    ap₂ ◌+◌
      (sum_below-congr n (weight (update heap n (some d)) (update held n true)) (weight heap held)
        (λ a below.
          let ne : a ≢ n = λ e. absurd (omega arith) in
          rw (update-ne heap n (some d) a ne, update-ne held n true a ne)))
      (rw (update-eq heap n (some d) n refl, update-eq held n true n refl)))

-- What the free lists make up, when the list of one class changes.
pub lengths-update :
    (free : ℕ → List ℕ) (k : ℕ) (xs : List ℕ)
    → IsClass k
    → class_sum (lengths (update free k xs)) + k / 1024 * length (free k)
      ≡ class_sum (lengths free) + k / 1024 * length xs
lengths-update free k xs class =
    omega
      (arith, ap class_sum (fun_ext pointwise), class_sum-update (lengths free) k (length xs) class)
  where
    pointwise : (j : ℕ) → lengths (update free k xs) j ≡ update (lengths free) k (length xs) j
    pointwise j = ground arith

-- An address that holds a chunk has been allocated.
pub lt-brk :
    {m : Mem} {free : ℕ → List ℕ} {held : ℕ → Bool} {c : Chunk} (a : ℕ)
    → Shape m free held
    → m.heap a ≡ some c
    → a < m.brk
lt-brk {m} a s at = elim (dec_lt a m.brk) [
  | yes below ↦ below
  | no above ↦ cc (at, (s.unused a (omega arith)).0)
]

module _ {A B : Type 0} (X : Type 0) (P : A → Mem → Type 0) (Q : B → Mem → Type 0) where
  Ensures-next :
      (r : Outcome (A × Mem)) (f : A → M B)
      → Ensures X P r
      → ((a : A) (m : Mem) → P a m → Ensures X Q (f a m))
      → Ensures X Q (elim r [ ok (a, m) ↦ f a m | aborted ↦ aborted | fault ↦ fault ])
  Ensures-next (ok (a, m)) f e next = next a m e
  Ensures-next aborted f e next = e
  Ensures-next fault f e next = e

  -- A step, and what follows it.
  pub Ensures-bind :
      (step : M A) (f : A → M B) (m : Mem)
      → Ensures X P (step m)
      → ((a : A) (m' : Mem) → P a m' → Ensures X Q (f a m'))
      → Ensures X Q ((step >>= f) m)
  Ensures-bind step f m e next = Ensures-next (step m) f e next

  Ensures-told :
      (step : M A) (f : A → M B) (m : Mem) (r : Outcome (A × Mem))
      → step m ≡ r
      → Ensures X P r
      → ((a : A) (m' : Mem) → step m ≡ ok (a, m') → P a m' → Ensures X Q (f a m'))
      → Ensures X Q (elim r [ ok (a, m) ↦ f a m | aborted ↦ aborted | fault ↦ fault ])
  Ensures-told step f m (ok (a, m')) e h next = next a m' e h
  Ensures-told step f m aborted e h next = h
  Ensures-told step f m fault e h next = h

  -- The same, where what follows knows how the step ended.
  pub Ensures-bind_told :
      (step : M A) (f : A → M B) (m : Mem)
      → Ensures X P (step m)
      → ((a : A) (m' : Mem) → step m ≡ ok (a, m') → P a m' → Ensures X Q (f a m'))
      → Ensures X Q ((step >>= f) m)
  Ensures-bind_told step f m h next = Ensures-told step f m (step m) refl h next

-- A step that ensures more.
pub Ensures-map :
    {A : Type 0} (X Y : Type 0) (P Q : A → Mem → Type 0) (r : Outcome (A × Mem))
    → (X → Y)
    → ((a : A) (m : Mem) → P a m → Q a m)
    → Ensures X P r
    → Ensures Y Q r
Ensures-map X Y P Q (ok (a, m)) f g e = g a m e
Ensures-map X Y P Q aborted f g e = f e
Ensures-map X Y P Q fault f g e = e
