-- ===== src/Log/Queue/Ring.antt =====
-- The items of a ring, from an index on, going round at the capacity.
use native.Mathlib.Nat.{mod-add-mod, mod-mod}
use high_performance_concurr.Base.{
  ℕ, zero, suc, ◌+◌, ◌%◌, ◌<◌, ◌≡◌, ◌≢◌, refl, sym, ap, ap₂, ◌∙◌, Option, some, List, [], ◌∷◌, ◌++◌,
  get_elem?, set, get_elem?-set_self, get_elem?-set_ne, length, arith,
}

mod-ne : (cap t d : ℕ) → 0 < d → d < cap → (t + d) % cap ≢ t % cap
mod-ne cap t d h k e = grind arith

mod_congr : (cap s t : ℕ) → s % cap ≡ t % cap → (s + 1) % cap ≡ (t + 1) % cap
mod_congr cap s t e = sym (mod-add-mod s cap 1) ∙ ap (λ x. (x + 1) % cap) e ∙ mod-add-mod t cap 1

module _ {ℓ} {A : Type ℓ} where
  -- The `n` items from `start` on. An index outside the array would show as `none`.
  abbrev pub ring : List A → ℕ → ℕ → ℕ → List (Option A)
  ring xs cap start zero = []
  ring xs cap start (suc n) = get_elem? xs (start % cap) ∷ ring xs cap (start + 1) n

  pub ring_mod :
      (xs : List A) (cap s t n : ℕ) → s % cap ≡ t % cap → ring xs cap s n ≡ ring xs cap t n
  ring_mod xs cap s t zero e = refl
  ring_mod xs cap s t (suc n) e =
      ap₂ ◌∷◌ (ap (get_elem? xs) e) (ring_mod xs cap (s + 1) (t + 1) n (mod_congr cap s t e))

  -- A write just behind the `n` items extends them, if the ring is not full.
  pub ring-set :
      (xs : List A) (cap start n i : ℕ) (v : A)
      → length xs ≡ cap
      → n < cap
      → i ≡ (start + n) % cap
      → ring (set xs i v) cap start (suc n) ≡ ring xs cap start n ++ some v ∷ []
  ring-set xs cap start zero i v len h e =
      let here : start % cap ≡ i = ap (λ x. x % cap) (omega arith) ∙ sym e in
      ap (λ x. x ∷ []) (rw here (get_elem?-set_self xs i v (omega arith)))
  ring-set xs cap start (suc n) i v len h e =
      ap₂ ◌∷◌
        (get_elem?-set_ne xs i (start % cap) v
          (λ f. mod-ne cap start (suc n) (omega arith) h (sym e ∙ f)))
        (ring-set xs cap (start + 1) n i v len (omega arith) (e ∙ ap (λ x. x % cap) (omega arith)))

  -- Without its first item the ring starts one further on.
  pub ring_tail :
      (xs : List A) (cap start n : ℕ)
      → ring xs cap start (suc n)
        ≡ get_elem? xs (start % cap) ∷ ring xs cap ((start % cap + 1) % cap) n
  ring_tail xs cap start n =
      ap (λ r. get_elem? xs (start % cap) ∷ r)
        (ring_mod xs cap (start + 1) ((start % cap + 1) % cap) n
          (sym (mod-add-mod start cap 1) ∙ sym (mod-mod (start % cap + 1) cap)))
