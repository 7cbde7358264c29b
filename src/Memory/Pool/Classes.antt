-- ===== src/Memory/Pool/Classes.antt =====
-- The size classes of the pool, and the loop of `alloc_chunk` that picks one.
use high_performance_concurr.Base.{
  ℕ, ◌≤◌, ◌<◌, ◌≡◌, refl, ◌⊎◌, Option, none, some, arith, leb, if◌then◌else◌,
}
use high_performance_concurr.Memory.Pool.{m_up, class_of}

-- The six capacities that a chunk of the pool can have.
abbrev pub IsClass : ℕ → Type 0
IsClass k =
    (k ≡ 4096) ⊎ ((k ≡ 16384) ⊎ ((k ≡ 65536) ⊎ ((k ≡ 262144) ⊎ ((k ≡ 1048576) ⊎ (k ≡ 4194304)))))

-- What a choice of class for `n` bytes must be: the smallest class that holds them, or none, when
-- they are more than the largest holds.
abbrev pub IsBest : ℕ → Option ℕ → Type 0
IsBest n none = m_up < n
IsBest n (some k) = IsClass k × (n ≤ k) × ((j : ℕ) → IsClass j → n ≤ j → k ≤ j)

class_of-table :
    (n : ℕ)
    → class_of n ≡ (
        if leb n 4096
        then some 4096
        else if leb n 16384
        then some 16384
        else if leb n 65536
        then some 65536
        else if leb n 262144
        then some 262144
        else if leb n 1048576
        then some 1048576
        else if leb n 4194304
        then some 4194304
        else none)
unfolding class_of
class_of-table n = refl

-- `alloc_chunk` picks the smallest size class that holds `n` bytes, and none exactly when `n` is
-- above the largest; so the loop ends within its fuel.
pub class_of-IsBest : (n : ℕ) → IsBest n (class_of n)
class_of-IsBest n = rw class_of-table (ground arith)
