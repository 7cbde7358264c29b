-- ===== src/Memory/Pool/Sums.antt =====
-- Sums over the size classes and over the addresses in use.
use high_performance_concurr.Base.{
  ℕ, zero, suc, ◌*◌, ◌+◌, ◌/◌, ◌<◌, ◌≡◌, refl, inl, inr, arith, dec_lt, ap₂,
}
use high_performance_concurr.Memory.Store.{update}
use high_performance_concurr.Memory.Pool.Classes.{IsClass}

-- In kB, what `n k` chunks of each class `k` make up.
abbrev pub class_sum : (ℕ → ℕ) → ℕ
class_sum n =
    4 * n 4096 + 16 * n 16384 + 64 * n 65536 + 256 * n 262144 + 1024 * n 1048576 + 4096 * n 4194304

pub class_sum-update :
    (n : ℕ → ℕ) (k v : ℕ)
    → IsClass k
    → class_sum (update n k v) + k / 1024 * n k ≡ class_sum n + k / 1024 * v
class_sum-update n k v (inl e) = rw e (omega arith)
class_sum-update n k v (inr (inl e)) = rw e (omega arith)
class_sum-update n k v (inr (inr (inl e))) = rw e (omega arith)
class_sum-update n k v (inr (inr (inr (inl e)))) = rw e (omega arith)
class_sum-update n k v (inr (inr (inr (inr (inl e))))) = rw e (omega arith)
class_sum-update n k v (inr (inr (inr (inr (inr e))))) = rw e (omega arith)

-- The sum of `w` over the addresses below `n`.
abbrev pub sum_below : ℕ → (ℕ → ℕ) → ℕ
sum_below zero w = 0
sum_below (suc n) w = sum_below n w + w n

pub sum_below-congr :
    (n : ℕ) (v w : ℕ → ℕ) → ((a : ℕ) → a < n → v a ≡ w a) → sum_below n v ≡ sum_below n w
sum_below-congr zero v w h = refl
sum_below-congr (suc n) v w h =
    ap₂ ◌+◌ (sum_below-congr n v w (λ a below. h a (omega arith))) (h n (omega arith))

-- Two weights that differ at one address only.
pub sum_below-change :
    (n : ℕ) (v w : ℕ → ℕ) (a : ℕ)
    → a < n
    → ((b : ℕ) → (b ≡ a → ⊥) → v b ≡ w b)
    → sum_below n v + w a ≡ sum_below n w + v a
sum_below-change zero v w a h same = absurd (omega arith)
sum_below-change (suc n) v w a h same = elim (dec_lt a n) [
  | yes below ↦ omega (arith, sum_below-change n v w a below same, same n (λ e. omega arith))
  | no last ↦
      let e : n ≡ a = omega arith in
      rw e (omega (arith, sum_below-congr a v w (λ b below. same b (λ f. omega arith))))
]
