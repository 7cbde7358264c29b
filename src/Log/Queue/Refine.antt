-- ===== src/Log/Queue/Refine.antt =====
-- The ring behaves as the bounded list of its items, whatever the order of the locked sections.
use native.Mathlib.Nat.{mod-lt, mod-add-mod, mod-mod}
use native.Mathlib.Numerals.{add-one}
use mathlib.Core.List.{map-append}
use high_performance_concurr.Base.{
  Bool-cases, inl, inr, lt→ltb, ℕ, zero, suc, ◌+◌, ◌-◌, ◌%◌, ◌≤◌, ◌<◌, ◌≡◌, refl, sym, ap, ap₂, ◌∙◌,
  Bool, true, false, Option, some, List, [], ◌∷◌, ◌++◌, map, get_elem?, set, length, length-set,
  length-replicate, arith, Outcome, ok, ◌>>=◌, if◌then◌else◌, leb, ◌==◌, subst, some-injective,
}
use high_performance_concurr.Log.Queue.{
  ℤ, pos, negsuc, Queue, next_index, Popped, got, make, clear, push, take_first, pop, pop_woken,
  pop_timed,
}
use high_performance_concurr.Log.Queue.Ring.{ring, ring-set, ring_tail, ring_mod}
use high_performance_concurr.Log.Queue.Fifo.{
  Op, put, take, wake, wake_timed, reset, Reply, pushed, popped, cleared, fifo_step, pop_or,
}

-- The index behind `i`.
abbrev pub behind : ℤ → ℕ
behind (pos n) = n + 1
behind (negsuc n) = 0

-- -1, or an index of the array.
abbrev pub IsIndex : ℕ → ℤ → Type 0
IsIndex cap (pos n) = n < cap
IsIndex cap (negsuc n) = n ≡ 0

next-behind : (cap : ℕ) (i : ℤ) → 0 < cap → IsIndex cap i → next_index i cap ≡ pos (behind i % cap)
next-behind cap (pos n) h k = refl
next-behind cap (negsuc zero) h k = refl
next-behind cap (negsuc (suc n)) h k = absurd (omega arith)

module _ {ℓ} {A : Type ℓ} where
  -- One locked section of the code.
  abbrev pub queue_step : Op A → Queue A → Outcome (Queue A × Reply A)
  queue_step (put x) q = do (q', b) ← push q x; ok (q', pushed b)
  queue_step take q = do (q', r) ← pop q; ok (q', popped r)
  queue_step wake q = do (q', r) ← pop_woken q; ok (q', popped r)
  queue_step (wake_timed late) q = do (q', r) ← pop_timed late q; ok (q', popped r)
  queue_step reset q = ok (clear q, cleared)

  abbrev pub queue_run : List (Op A) → Queue A → Outcome (Queue A × List (Reply A))
  queue_run [] q = ok (q, [])
  queue_run (op ∷ ops) q = do
    (q', r) ← queue_step op q
    (q'', rs) ← queue_run ops q'
    ok (q'', r ∷ rs)

  pub record IsValid (q : Queue A) : Type 0 where
    pub array : length q.items ≡ q.capacity
    pub positive : 0 < q.capacity
    pub room : q.size ≤ q.capacity
    pub first_in : IsIndex q.capacity q.first
    pub last_in : IsIndex q.capacity q.last
    pub meet : behind q.last % q.capacity ≡ (behind q.first + q.size) % q.capacity

  abbrev pub contents : Queue A → List (Option A)
  contents q = ring q.items q.capacity (behind q.first) q.size

  -- A valid ring that holds the items `xs`.
  pub record Holds (cap : ℕ) (q : Queue A) (xs : List A) : Type ℓ where
    pub valid : IsValid q
    pub items : contents q ≡ map some xs
    pub bound : q.capacity ≡ cap

  tail_eq : {x y : Option A} {xs ys : List (Option A)} → x ∷ xs ≡ y ∷ ys → xs ≡ ys
  tail_eq e = cc

  length-ring :
      (ys : List A) (cap s n : ℕ) (xs : List A) → ring ys cap s n ≡ map some xs → n ≡ length xs
  length-ring ys cap s zero [] e = refl
  length-ring ys cap s zero (x ∷ xs) e = cc
  length-ring ys cap s (suc n) [] e = cc
  length-ring ys cap s (suc n) (x ∷ xs) e = ap suc (length-ring ys cap (s + 1) n xs (cc))

  -- A new queue is valid and empty.
  pub make-Holds :
      (dflt : A) (n : ℕ) (debug : Bool) (q : Queue A)
      → make dflt (pos n) debug ≡ some q
      → Holds n q []
  unfolding make
  make-Holds dflt zero debug q e = cc
  make-Holds dflt (suc n) debug q e =
      subst (λ q. Holds (suc n) q []) (some-injective e)
        (record {
          valid = record {
            array = length-replicate (suc n) dflt;
            positive = omega arith;
            room = omega arith;
            first_in = refl;
            last_in = refl;
            meet = refl;
          };
          items = refl;
          bound = refl;
        })

  pub size-length : {cap : ℕ} {q : Queue A} {xs : List A} → Holds cap q xs → q.size ≡ length xs
  size-length {q = q} {xs = xs} h =
      length-ring q.items q.capacity (behind q.first) q.size xs h.items

  push-full : (x : A) (q : Queue A) → leb q.capacity q.size ≡ true → push q x ≡ ok (q, false)
  unfolding push
  push-full x q full = rw full

  -- The queue behind a `push` that is not refused.
  abbrev pushed_at : Queue A → A → ℕ → Queue A
  pushed_at q x i = record q {
    last = pos i;
    items = set q.items i x;
    size = q.size + 1;
    wcnt = if q.debug then q.wcnt + 1 else q.wcnt;
  }

  push-ok :
      (x : A) (q : Queue A) (i : ℕ)
      → leb q.capacity q.size ≡ false
      → next_index q.last q.capacity ≡ pos i
      → i < length q.items
      → push q x ≡ ok (pushed_at q x i, true)
  unfolding push
  push-ok x q i more index inside = rw (more, index, lt→ltb i (length q.items) inside)

  pushed-Holds :
      (x : A) {cap : ℕ} {q : Queue A} {xs : List A} (i : ℕ)
      → Holds cap q xs
      → q.size < q.capacity
      → i ≡ behind q.last % q.capacity
      → Holds cap (pushed_at q x i) (xs ++ x ∷ [])
  pushed-Holds x {cap} {q} {xs} i h more e =
      let v = h.valid in
      let spot : i ≡ (behind q.first + q.size) % q.capacity = e ∙ v.meet in
      record {
        valid = record {
          array = length-set q.items i x ∙ v.array;
          positive = v.positive;
          room = omega arith;
          first_in = v.first_in;
          last_in = rw spot (mod-lt (behind q.first + q.size) v.positive);
          meet =
              ap (λ (y : ℕ). (y + 1) % q.capacity) spot
              ∙ mod-add-mod (behind q.first + q.size) q.capacity 1
              ∙ ap (λ (y : ℕ). y % q.capacity) (omega arith);
        };
        items = rw add-one (
            ring-set q.items q.capacity (behind q.first) q.size i x v.array more spot
            ∙ ap (λ ys. ys ++ some x ∷ []) h.items
            ∙ sym (map-append some xs (x ∷ [])));
        bound = h.bound;
      }

  pub push-Holds :
      (x : A) {cap : ℕ} {q : Queue A} {xs : List A}
      → Holds cap q xs
      → (q' : Queue A) × (queue_step (put x) q ≡ ok (q', (fifo_step cap (put x) xs).1))
        × Holds cap q' (fifo_step cap (put x) xs).0
  push-Holds x {cap} {q} {xs} h =
      let same : leb q.capacity q.size ≡ leb cap (length xs) = ap₂ leb h.bound (size-length h) in
      elim (Bool-cases (leb cap (length xs))) [
        | inl full ↦ rw full (q, rw (push-full x q (same ∙ full)), h)
        | inr more ↦
            let i = behind q.last % q.capacity in
            let small : q.size < q.capacity = ground (arith, same ∙ more) in
            rw more (
              pushed_at q x i,
              rw (
                  push-ok x q i (same ∙ more)
                    (next-behind q.capacity q.last h.valid.positive h.valid.last_in)
                    (rw h.valid.array (mod-lt (behind q.last) h.valid.positive))),
              pushed-Holds x i h small refl,
            )
      ]

  -- The queue behind a `pop` that finds an item.
  abbrev taken_at : Queue A → ℕ → Queue A
  taken_at q i = record q {
    first = pos i;
    size = q.size - 1;
    rcnt = if q.debug then q.rcnt + 1 else q.rcnt;
  }

  take_first-ok :
      (q : Queue A) (i : ℕ) (x : A)
      → next_index q.first q.capacity ≡ pos i
      → get_elem? q.items i ≡ some x
      → take_first q ≡ ok (taken_at q i, got x)
  unfolding take_first
  take_first-ok q i x index item = rw (index, ◌>>=◌, item)

  pub taken-Holds :
      {cap : ℕ} {q : Queue A} (x : A) (xs : List A)
      → Holds cap q (x ∷ xs)
      → (get_elem? q.items (behind q.first % q.capacity) ≡ some x)
        × Holds cap (taken_at q (behind q.first % q.capacity)) xs
  taken-Holds {cap} {q} x xs h =
      let v = h.valid in
      let i = behind q.first % q.capacity in
      let more : q.size ≡ suc (length xs) = size-length h in
      let split : (get_elem? q.items i ∷ ring q.items q.capacity ((i + 1) % q.capacity) (length xs))
          ≡ map some (x ∷ xs) =
        sym (ring_tail q.items q.capacity (behind q.first) (length xs))
        ∙ ap (ring q.items q.capacity (behind q.first)) (sym more)
        ∙ h.items in
      (
        cc,
        record {
          valid = record {
            array = v.array;
            positive = v.positive;
            room = omega arith;
            first_in = mod-lt (behind q.first) v.positive;
            last_in = v.last_in;
            meet =
                v.meet
                ∙ ap (λ (y : ℕ). (behind q.first + y) % q.capacity) more
                ∙ ap (λ (y : ℕ). y % q.capacity) (omega arith)
                ∙ sym (mod-add-mod (behind q.first) q.capacity (1 + length xs))
                ∙ ap (λ (y : ℕ). y % q.capacity) (omega arith);
          };
          items =
              ap (ring q.items q.capacity (i + 1)) (omega arith)
              ∙ ring_mod q.items q.capacity (i + 1) ((i + 1) % q.capacity) (length xs)
                  (sym (mod-mod (i + 1) q.capacity))
              ∙ tail_eq split;
          bound = h.bound;
        },
      )

  pub not_empty :
      {cap : ℕ} {q : Queue A} (x : A) (xs : List A) → Holds cap q (x ∷ xs) → (q.size == 0) ≡ false
  not_empty {q = q} x xs h = ground (arith, size-length h)

  is_empty : {cap : ℕ} {q : Queue A} → Holds cap q [] → (q.size == 0) ≡ true
  is_empty {q = q} h = ground (arith, size-length h)

  -- The three kinds of `pop` differ in what they do with an empty queue.
  pub pop-Holds :
      {cap : ℕ} {q : Queue A} (xs : List A) (otherwise : Popped A)
      → Holds cap q xs
      → (q' : Queue A) × ((if q.size == 0 then ok (q, otherwise) else take_first q)
          ≡ ok (q', (elim (pop_or otherwise xs).1 [ popped r ↦ r | _ ↦ otherwise ])))
        × Holds cap q' (pop_or otherwise xs).0
  pop-Holds {q = q} [] otherwise h = (q, rw (is_empty h), h)
  pop-Holds {q = q} (x ∷ xs) otherwise h =
      let (item, h') = taken-Holds x xs h in
      let i = behind q.first % q.capacity in
      (
        taken_at q i,
        rw (not_empty x xs h) (
            take_first-ok q i x (next-behind q.capacity q.first h.valid.positive h.valid.first_in)
              item),
        h',
      )
