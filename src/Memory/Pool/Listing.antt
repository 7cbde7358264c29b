-- ===== src/Memory/Pool/Listing.antt =====
-- memory/mem_pool.cpp: the walks over a free list. They stop where the list ends, as fuel beyond its
-- length shows.
use high_performance_concurr.Base.{
  ℕ, zero, suc, ◌+◌, ◌-◌, ◌*◌, true, false, Bool, ◌^◌, ◌≤◌, ◌<◌, ◌≡◌, refl, ap, ap₂, Option, none,
  some, List, [], ◌∷◌, arith, ltb, leb, lt→ltb, length, replicate, min, if◌then◌else◌, Outcome, ok,
  fault, check, require, Bool-cases, inl, inr,
}
use high_performance_concurr.Memory.Chunk.{print_data}
use high_performance_concurr.Memory.Store.{Mem, M, pure, ◌>>=◌, ◌>>◌, lift, get, load, pool_at}
use high_performance_concurr.Memory.Pool.{has_key}
use high_performance_concurr.Memory.Pool.Classes.{IsClass}
use high_performance_concurr.Memory.Pool.FreeList.{Seg}
use high_performance_concurr.Memory.Pool.Handout.{pool_of_class}
use high_performance_concurr.Memory.Pool.Sums.{class_sum}
use high_performance_concurr.Memory.Pool.Invariant.{Inv, lengths}

abbrev nowhere : {A : Type 0} → M A
nowhere m = fault

-- The loop of `get_list_size_byte`; `size` is an `int`.
unfoldable pub list_size : ℕ → Option ℕ → ℕ → M ℕ
list_size zero p size = nowhere
list_size (suc fuel) none size = pure size
list_size (suc fuel) (some a) size = do
  c ← load a
  lift (require (ltb (size + c.capacity) (2 ^ 31)))
  list_size fuel c.next (size + c.capacity)

-- `mp_pool[index]` behind its assertion.
unfoldable pub list_at : ℕ → M (Option ℕ)
list_at index = do m ← get; lift (check (has_key (m.pool index))); pool_at index

unfoldable pub get_list_size_byte : ℕ → ℕ → M ℕ
get_list_size_byte fuel index = do front ← list_at index; list_size fuel front 0

-- The loop of `print_list_content`: what the first six chunks print, and how many chunks there are.
unfoldable pub list_content : ℕ → Option ℕ → ℕ → M (List (List ℕ) × ℕ)
list_content zero p cnt = nowhere
list_content (suc fuel) none cnt = pure ([], cnt)
list_content (suc fuel) (some a) cnt = do
  c ← load a
  rest ← list_content fuel c.next (cnt + 1)
  pure (if leb cnt 5 then print_data c ∷ rest.0 else rest.0, rest.1)

unfoldable pub print_list_content : ℕ → ℕ → M (List (List ℕ) × ℕ)
print_list_content fuel index = do front ← list_at index; list_content fuel front 0

list_at-ok : (m : Mem) (k : ℕ) (p : Option ℕ) → m.pool k ≡ some p → list_at k m ≡ ok (p, m)
unfolding list_at
list_at-ok m k p e = simp (e, pool_at) refl

recounted :
    {ys : List (List ℕ)} {a b : ℕ} {m : Mem}
    → a ≡ b
    → ◌≡◌ {A = Outcome ((List (List ℕ) × ℕ) × Mem)} (ok ((ys, a), m)) (ok ((ys, b), m))
recounted {ys} {m = m} e = ap (λ n. ok ((ys, n), m)) e

zero-add : (n : ℕ) → 0 + n ≡ n
zero-add n = omega arith

nothing_more : (n : ℕ) → 0 ≡ min n 0
nothing_more n = ground arith

few_more : (cnt n : ℕ) → leb cnt 5 ≡ true → min (6 - cnt) (suc n) ≡ suc (min (6 - (cnt + 1)) n)
few_more cnt n few = ground arith

no_more : (cnt n : ℕ) → leb cnt 5 ≡ false → min (6 - cnt) (suc n) ≡ min (6 - (cnt + 1)) n
no_more cnt n many = ground arith

module _ (m : Mem) (held : ℕ → Bool) (k : ℕ) where
  list_size-Seg :
      (fuel size : ℕ) (p : Option ℕ) (xs : List ℕ)
      → Seg m.heap held k p xs
      → length xs < fuel
      → size + k * length xs < 2 ^ 31
      → list_size fuel p size m ≡ ok (size + k * length xs, m)
  unfolding list_size
  list_size-Seg zero size p xs s enough fits = elim enough [ ]
  list_size-Seg (suc fuel) size p [] s enough fits = rw s (ap (λ n. ok (n, m)) (omega arith))
  list_size-Seg (suc fuel) size p (a ∷ xs) (c, e, at, (fit, empty, front), _, _, rest) enough fits =
      let more : k * suc (length xs) ≡ k + k * length xs = omega arith in
      let here : ltb (size + c.capacity) (2 ^ 31) ≡ true =
        lt→ltb _ _ (omega (arith, fits, more, fit)) in
      let next =
        list_size-Seg fuel (size + c.capacity) c.next xs rest (omega (arith, enough))
          (omega (arith, fits, more, fit)) in
      rw e (
        simp (list_size, ◌>>=◌, load, at, here, next)
          (ap (λ n. ok (n, m)) (omega (arith, more, fit))))

  list_content-Seg :
      (fuel cnt : ℕ) (p : Option ℕ) (xs : List ℕ)
      → Seg m.heap held k p xs
      → length xs < fuel
      → list_content fuel p cnt m
        ≡ ok ((replicate (min (6 - cnt) (length xs)) [], cnt + length xs), m)
  unfolding list_content print_data
  list_content-Seg zero cnt p xs s enough = elim enough [ ]
  list_content-Seg (suc fuel) cnt p [] s enough =
      rw s (ap₂ (λ n k. ok ((replicate n [], k), m)) (nothing_more (6 - cnt)) (omega arith))
  list_content-Seg (suc fuel) cnt p (a ∷ xs) (c, e, at, (fit, empty, front), _, _, rest) enough =
      let next = list_content-Seg fuel (cnt + 1) c.next xs rest (omega (arith, enough)) in
      let tally : cnt + 1 + length xs ≡ cnt + suc (length xs) = omega arith in
      elim (Bool-cases (leb cnt 5)) [
        | inl few ↦ rw e (
            simp
              (
                list_content,
                ◌>>=◌,
                load,
                at,
                next,
                few,
                few_more cnt (length xs) few,
                print_data,
                empty,
                front,
              )
              (recounted tally))
        | inr many ↦ rw e (
            simp (list_content, ◌>>=◌, load, at, next, many, no_more cnt (length xs) many)
              (recounted tally))
      ]

class_room : (n : ℕ → ℕ) (k : ℕ) → IsClass k → k * n k ≤ 1024 * class_sum n
class_room n k (inl e) = rw e (omega arith)
class_room n k (inr (inl e)) = rw e (omega arith)
class_room n k (inr (inr (inl e))) = rw e (omega arith)
class_room n k (inr (inr (inr (inl e)))) = rw e (omega arith)
class_room n k (inr (inr (inr (inr (inl e))))) = rw e (omega arith)
class_room n k (inr (inr (inr (inr (inr e))))) = rw e (omega arith)

-- In a pool in good order with less than 2 GiB left, and with fuel for the free list of a class:
-- `get_list_size_byte` returns the bytes that the list makes up, with no overflow of its `int`, and
-- `print_list_content` counts the chunks and prints at most six of them, each as empty. Neither
-- changes the memory.
pub list_is_measured :
    (m : Mem) (free : ℕ → List ℕ) (held : ℕ → Bool) (k fuel : ℕ)
    → Inv m free held
    → IsClass k
    → m.left_kb < 2 ^ 21
    → length (free k) < fuel
    → (get_list_size_byte fuel k m ≡ ok (k * length (free k), m))
      × (print_list_content fuel k m
          ≡ ok ((replicate (min 6 (length (free k))) [], length (free k)), m))
unfolding get_list_size_byte print_list_content
list_is_measured m free held k fuel v class small enough =
    let (p, there) = pool_of_class v k class in
    let seg = (v.shape.lists k p there).1 in
    let room = class_room (lengths free) k class in
    let sized =
      list_size-Seg m held k fuel 0 p (free k) seg enough (omega (arith, room, small, v.left)) in
    let printed = list_content-Seg m held k fuel 0 p (free k) seg enough in
    let at = list_at-ok m k p there in
    (
      simp (◌>>=◌, at, sized) (ap (λ n. ok (n, m)) (zero-add _)),
      simp (◌>>=◌, at, printed) (recounted (zero-add _)),
    )
