-- ===== src/Memory/Pool/Write.antt =====
-- The holder of a chunk writes it: the invariant of the pool stays.
use high_performance_concurr.Base.{
  ℕ, ◌+◌, ◌≤◌, ◌≡◌, refl, sym, ap, ◌∙◌, Bool, true, Option, some, List, ℕ_discrete,
}
use high_performance_concurr.Memory.Chunk.{Chunk}
use high_performance_concurr.Memory.Store.{Mem, update}
use high_performance_concurr.Memory.Pool.Sums.{sum_below-congr}
use high_performance_concurr.Memory.Pool.FreeList.{update-ne, update-eq}
use high_performance_concurr.Memory.Pool.Shape.{Shape-write}
use high_performance_concurr.Memory.Pool.Invariant.{Inv, weight}

weight-write :
    (heap : ℕ → Option Chunk) (held : ℕ → Bool) (a : ℕ) (c d : Chunk) (b : ℕ)
    → heap a ≡ some c
    → d.capacity ≡ c.capacity
    → weight (update heap a (some d)) held b ≡ weight heap held b
weight-write heap held a c d b at same = elim (ℕ_discrete b a) [
  | yes e ↦ rw (e, update-eq heap a (some d) a refl, at, same)
  | no ne ↦ rw (update-ne heap a (some d) b ne)
]

-- A chunk that is handed out is written by its holder, and keeps its capacity.
pub Inv-write :
    {m : Mem} {free : ℕ → List ℕ} {held : ℕ → Bool} {c : Chunk} (a : ℕ) (d : Chunk)
    → Inv m free held
    → held a ≡ true
    → m.heap a ≡ some c
    → d.capacity ≡ c.capacity
    → d.head + d.length ≤ d.capacity
    → Inv (record m { heap = update m.heap a (some d) }) free held
Inv-write {m} {free} {held} {c} a d v h at same fits =
    let (c', at', class, _) = v.shape.owned a h in
    let one : c' ≡ c = cc in
    record {
      shape = Shape-write v.shape a d h (rw (same, ← one) class) fits;
      full = v.full;
      left = v.left;
      total =
          v.total
          ∙ ap (λ (x : ℕ). m.left_kb + x)
              (sym (
                sum_below-congr m.brk (weight (update m.heap a (some d)) held) (weight m.heap held)
                  (λ b below. weight-write m.heap held a c d b at same)));
      limit = v.limit;
    }
