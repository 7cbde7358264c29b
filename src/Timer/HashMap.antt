-- ===== src/Timer/HashMap.antt =====
-- timer/hash_map.h: `hash_map<K, V>`, a map of which each method runs under `hm_mutex`.
pub mod Function
use mathlib.Core.Logic.{ite}
use high_performance_concurr.Base.{
  ℕ, suc, ◌≡◌, refl, Bool, true, false, Option, none, some, List, [], ◌∷◌, length, arith,
}

-- The pairs of `unordered_map`, one for each key.
abbrev pub HashMap : Type 0 → Type 0 → Type 0
HashMap K V = List (K × V)

module _ {K V : Type 0} (dec : Discrete K) where
  -- `hm_map.find`.
  unfoldable pub find : K → HashMap K V → Option V
  find key [] = none
  find key ((k, v) ∷ m) = ite (dec k key) (some v) (find key m)

  -- Both `emplace`: `hm_map[key] = v`.
  unfoldable pub emplace : K → V → HashMap K V → HashMap K V
  emplace key v [] = (key, v) ∷ []
  emplace key v ((k, w) ∷ m) = ite (dec k key) ((key, v) ∷ m) ((k, w) ∷ emplace key v m)

  unfoldable pub erase : K → HashMap K V → HashMap K V
  erase key [] = []
  erase key ((k, v) ∷ m) = ite (dec k key) (erase key m) ((k, v) ∷ erase key m)

  -- `get_val`: none where it returns false.
  unfoldable pub get_val : K → HashMap K V → Option V
  unfolding find
  get_val key m = find key m

  abbrev pub is_some : Option V → Bool
  is_some none = false
  is_some (some v) = true

  unfoldable pub is_key_exist : K → HashMap K V → Bool
  is_key_exist key m = is_some (find key m)

  unfoldable pub size : HashMap K V → ℕ
  size m = length m

  pub find-emplace :
      (key j : K) (v : V) (m : HashMap K V)
      → find j (emplace key v m) ≡ ite (dec key j) (some v) (find j m)
  unfolding find emplace
  find-emplace key j v [] = refl
  find-emplace key j v ((k, w) ∷ m) = ground (arith, find-emplace key j v m)

  pub find-erase :
      (key j : K) (m : HashMap K V) → find j (erase key m) ≡ ite (dec key j) none (find j m)
  unfolding find erase
  find-erase key j [] = ground arith
  find-erase key j ((k, w) ∷ m) = ground (arith, find-erase key j m)

  -- A new key makes the map longer by one; an old one keeps its length.
  pub size-emplace :
      (key : K) (v : V) (m : HashMap K V)
      → size (emplace key v m) ≡ elim (is_key_exist key m) [ true ↦ size m | false ↦ suc (size m) ]
  unfolding size emplace is_key_exist find
  size-emplace key v [] = refl
  size-emplace key v ((k, w) ∷ m) = ground (arith, size-emplace key v m)
