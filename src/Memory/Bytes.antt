-- ===== src/Memory/Bytes.antt =====
-- The contents of a `char` array: a byte for each offset. An array has no end here; the code that
-- models an access tests the range itself.
use Prim.Native.Nat.add
use native.Mathlib.Nat.{add-zero}
use high_performance_concurr.Base.{
  ℕ, zero, suc, ◌+◌, ◌-◌, ◌≤◌, ◌<◌, ◌≡◌, refl, ap, ap₂, List, [], ◌∷◌, ◌++◌, ◌&&◌, arith, leb, ltb,
  if◌then◌else◌, length, take, drop, ◌∙◌,
}

abbrev pub Bytes : Type 0
Bytes = ℕ → ℕ

-- The bytes at offsets `from`, …, `from + n - 1`.
abbrev pub slice : Bytes → ℕ → ℕ → List ℕ
slice f from zero = []
slice f from (suc n) = f from ∷ slice f (from + 1) n

-- `memcpy(dst + at, src + from, n)`; `memmove` where `dst` and `src` are one array.
abbrev pub blit : Bytes → ℕ → Bytes → ℕ → ℕ → Bytes
blit dst at src from n i = if leb at i && ltb i (at + n) then src (from + (i - at)) else dst i

pub length-slice : (f : Bytes) (from n : ℕ) → length (slice f from n) ≡ n
length-slice f from zero = refl
length-slice f from (suc n) = ap suc (length-slice f (from + 1) n)

shift_suc : (a k : ℕ) → a + 1 + k ≡ a + suc k
shift_suc a k = omega arith

-- Two arrays that agree on a range have the same slice there.
pub slice-congr :
    (f g : Bytes) (a b n : ℕ)
    → ((k : ℕ) → k < n → f (a + k) ≡ g (b + k))
    → slice f a n ≡ slice g b n
slice-congr f g a b zero h = refl
slice-congr f g a b (suc n) h = ap₂ ◌∷◌ (cc (h 0 (omega arith), add-zero a, add-zero b)) (
    slice-congr f g (a + 1) (b + 1) n
      (λ k below. rw (shift_suc, shift_suc) (h (suc k) (omega arith))))

pub slice-append : (f : Bytes) (a m n : ℕ) → slice f a (m + n) ≡ slice f a m ++ slice f (a + m) n
slice-append f a zero n = ap₂ (slice f) (omega arith) (omega arith)
slice-append f a (suc m) n = rw (add.suc, slice-append f (a + 1) m n, shift_suc)

pub drop-slice : (f : Bytes) (a k n : ℕ) → k ≤ n → drop k (slice f a n) ≡ slice f (a + k) (n - k)
drop-slice f a zero n h = ap₂ (slice f) (omega arith) (omega arith)
drop-slice f a (suc k) zero h = absurd (omega arith)
drop-slice f a (suc k) (suc n) h =
    drop-slice f (a + 1) k n (omega arith) ∙ ap₂ (slice f) (omega arith) (omega arith)

pub take-slice : (f : Bytes) (a k n : ℕ) → k ≤ n → take k (slice f a n) ≡ slice f a k
take-slice f a zero n h = refl
take-slice f a (suc k) zero h = absurd (omega arith)
take-slice f a (suc k) (suc n) h = ap (λ t. f a ∷ t) (take-slice f (a + 1) k n (omega arith))

blit_inside :
    (dst src : Bytes) (at from n k : ℕ) → k < n → blit dst at src from n (at + k) ≡ src (from + k)
blit_inside dst src at from n k h = ground (arith, ap src {x = from + (at + k - at)} {y = from + k})

-- What is copied is what is then read at the target.
pub slice-blit_self :
    (dst src : Bytes) (at from n : ℕ) → slice (blit dst at src from n) at n ≡ slice src from n
slice-blit_self dst src at from n =
    slice-congr (blit dst at src from n) src at from n (λ k h. blit_inside dst src at from n k h)

-- A copy leaves what stands before its target alone.
pub slice-blit_before :
    (dst src : Bytes) (at from n a k : ℕ)
    → a + k ≤ at
    → slice (blit dst at src from n) a k ≡ slice dst a k
slice-blit_before dst src at from n a k h =
    slice-congr (blit dst at src from n) dst a a k (λ i below. ground arith)

-- Appending: the old slice, then what was copied behind it.
pub slice-blit_append :
    (dst src : Bytes) (a m from n : ℕ)
    → slice (blit dst (a + m) src from n) a (m + n) ≡ slice dst a m ++ slice src from n
slice-blit_append dst src a m from n = rw (
  slice-append (blit dst (a + m) src from n) a m n,
  slice-blit_before dst src (a + m) from n a m (omega arith),
  slice-blit_self dst src (a + m) from n,
)
