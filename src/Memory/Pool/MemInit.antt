-- ===== src/Memory/Pool/MemInit.antt =====
-- `mem_init` on a pool under construction.
use high_performance_concurr.Base.{
  ℕ, ◌+◌, ◌-◌, ◌/◌, ◌*◌, ◌≤◌, ◌<◌, ◌≡◌, refl, sym, ap, ◌∙◌, true, Option, none, some, List, [], ◌∷◌,
  ◌^◌, length, ok, arith, ℕ_discrete, subst, some-injective,
}
use high_performance_concurr.Memory.Chunk.{make}
use high_performance_concurr.Memory.Store.{Mem, Grant, update, ◌>>=◌}
use high_performance_concurr.Memory.Pool.{add64, extend, mem_init}
use high_performance_concurr.Memory.Pool.Classes.{IsClass}
use high_performance_concurr.Memory.Pool.Sums.{class_sum}
use high_performance_concurr.Memory.Pool.FreeList.{Seg, update-ne, update-eq, Seg-agree}
use high_performance_concurr.Memory.Pool.Shape.{Shape}
use high_performance_concurr.Memory.Pool.Invariant.{lengths, lengths-update}
use high_performance_concurr.Memory.Pool.Link.{
  run_of, length-run_of, nobody, Linked, with_new, extend-Seg,
}

-- A pool under construction: where no list was made yet there is no key, and `total_kb` counts the
-- lists.
pub record Part (m : Mem) (free : ℕ → List ℕ) : Type 0 where
  pub shape : Shape m free nobody
  pub absent : (k : ℕ) → m.pool k ≡ none → free k ≡ []
  pub sum : m.total_kb ≡ class_sum (lengths free)

module _ (sys : ℕ → Grant) (granted : (a : ℕ) → (sys a).granted ≡ true) where
  abbrev first_made : Mem → ℕ → Mem
  first_made m size = record m {
    heap = with_new sys granted m size;
    brk = m.brk + 1;
    pool = update m.pool size (some (some m.brk));
  }

  mem_init-eq :
      (size count : ℕ) (m m' : Mem)
      → extend sys size m.brk (count - 1) (first_made m size) ≡ ok (tt, m')
      → mem_init sys size count m
        ≡ ok (tt, record m' { total_kb = add64 m'.total_kb (size / 1024 * count) })
  unfolding mem_init
  mem_init-eq size count m m' e = rw (granted m.brk, ◌>>=◌, e)

  module _ (size count : ℕ) {m : Mem} {free : ℕ → List ℕ} (class : IsClass size)
      (some_count : 0 < count) (missing : m.pool size ≡ none)
      (small : m.total_kb + size / 1024 * count < 2 ^ 64) (part : Part m free) where
    first_unused : (b : ℕ) → m.brk + 1 ≤ b → (first_made m size).heap b ≡ none
    first_unused b above =
        update-ne m.heap m.brk (some (make size (sys m.brk).garbage)) b (λ e. absurd (omega arith))
        ∙ (part.shape.unused b (omega arith)).0

    module _ {m' : Mem}
        (seg : Seg m'.heap nobody size (some m.brk) (m.brk ∷ run_of (m.brk + 1) (count - 1)))
        (linked : Linked (first_made m size) size (count - 1) m.brk m') where
      made_lists :
          (k : ℕ) (p : Option ℕ)
          → m'.pool k ≡ some p
          → IsClass k
            × Seg m'.heap nobody k p (update free size (m.brk ∷ run_of (m.brk + 1) (count - 1)) k)
      made_lists k p e = elim (ℕ_discrete k size) [
        | yes same ↦
            let top : some m.brk ≡ p = some-injective (
              sym (update-eq m.pool size (some (some m.brk)) k same)
              ∙ sym (ap (λ (f : ℕ → Option (Option ℕ)). f k) linked.pool)
              ∙ e) in
            rw (same, update-eq free size (m.brk ∷ run_of (m.brk + 1) (count - 1)) size refl)
              (
                class,
                subst (λ q. Seg m'.heap nobody size q (m.brk ∷ run_of (m.brk + 1) (count - 1))) top
                    seg,
              )
        | no other ↦
            let before : m.pool k ≡ some p =
              sym (update-ne m.pool size (some (some m.brk)) k other)
              ∙ sym (ap (λ (f : ℕ → Option (Option ℕ)). f k) linked.pool)
              ∙ e in
            rw (update-ne free size (m.brk ∷ run_of (m.brk + 1) (count - 1)) k other) (
              (part.shape.lists k p before).0,
              Seg-agree m.heap m'.heap nobody k m.brk p (free k)
                  (λ b above. (part.shape.unused b above).0)
                  (λ b below.
                    linked.old b (omega arith) (λ e. absurd (omega arith))
                    ∙ update-ne m.heap m.brk (some (make size (sys m.brk).garbage)) b
                        (λ e. absurd (omega arith)))
                  (part.shape.lists k p before).1,
            )
      ]

      made_total : add64 m'.total_kb (size / 1024 * count) ≡ m.total_kb + size / 1024 * count
      made_total = omega (arith, linked.total)

      made_Part :
          Part
            (record m' { total_kb = add64 m'.total_kb (size / 1024 * count) })
            (update free size (m.brk ∷ run_of (m.brk + 1) (count - 1)))
      made_Part = record {
        shape = record {
          lists = made_lists;
          unused = λ b above. (linked.unused b above, refl);
          owned = λ b h. cc;
        };
        absent = λ k e. elim (ℕ_discrete k size) [
          | yes same ↦ cc (e, linked.pool, update-eq m.pool size (some (some m.brk)) k same)
          | no other ↦
              update-ne free size (m.brk ∷ run_of (m.brk + 1) (count - 1)) k other
              ∙ part.absent k (
                  sym (update-ne m.pool size (some (some m.brk)) k other)
                  ∙ sym (ap (λ (f : ℕ → Option (Option ℕ)). f k) linked.pool)
                  ∙ e)
        ];
        sum = omega (
          arith,
          made_total,
          part.sum,
          ap (length {A = ℕ}) (part.absent size missing),
          ap (λ (x : ℕ). size / 1024 * x) (ap (length {A = ℕ}) (part.absent size missing)),
          ap (λ (x : ℕ). size / 1024 * x) chunk_count,
          lengths-update free size (m.brk ∷ run_of (m.brk + 1) (count - 1)) class,
        );
      }
        where
          chunk_count : length (m.brk ∷ run_of (m.brk + 1) (count - 1)) ≡ count
          chunk_count = omega (arith, length-run_of (m.brk + 1) (count - 1))

    -- `mem_init` makes the list of a class that has none, and keeps the others.
    pub mem_init-Part :
        (m' : Mem) × (mem_init sys size count m ≡ ok (tt, m'))
        × Part m' (update free size (m.brk ∷ run_of (m.brk + 1) (count - 1)))
        × (m'.pool ≡ update m.pool size (some (some m.brk)))
        × (m'.total_kb ≡ m.total_kb + size / 1024 * count)
    mem_init-Part =
        let (m', run, seg, linked) =
          extend-Seg sys granted size (count - 1) m.brk (first_made m size)
            (make size (sys m.brk).garbage)
            (update-eq m.heap m.brk (some (make size (sys m.brk).garbage)) m.brk refl)
            (refl, refl, refl, refl) (omega arith) first_unused in
        (
          record m' { total_kb = add64 m'.total_kb (size / 1024 * count) },
          mem_init-eq size count m m' run,
          made_Part seg linked,
          linked.pool,
          made_total seg linked,
        )
