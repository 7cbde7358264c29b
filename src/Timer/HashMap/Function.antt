-- ===== src/Timer/HashMap/Function.antt =====
-- `hash_map` is a function from keys to values.
use mathlib.Core.Logic.{ite}
use high_performance_concurr.Base.{◌≡◌, refl, ap, ◌∙◌, Option, none, some, List, [], ◌∷◌}
use high_performance_concurr.Timer.HashMap
use high_performance_concurr.Timer.HashMap.{
  HashMap, find, emplace, erase, get_val, is_key_exist, is_some,
}

-- A call that changes the map.
pub data Op (K V : Type 0) : Type 0 where
  emplaces : K → V → Op K V
  erases : K → Op K V

module _ {K V : Type 0} (dec : Discrete K) where
  abbrev pub apply : Op K V → HashMap K V → HashMap K V
  apply (emplaces key v) m = emplace dec key v m
  apply (erases key) m = erase dec key m

  abbrev pub run : List (Op K V) → HashMap K V → HashMap K V
  run [] m = m
  run (o ∷ os) m = run os (apply o m)

  -- The value that the last call for a key has left, from what was there before.
  abbrev pub last_value : List (Op K V) → K → Option V → Option V
  last_value [] j old = old
  last_value (emplaces key v ∷ os) j old = last_value os j (ite (dec key j) (some v) old)
  last_value (erases key ∷ os) j old = last_value os j (ite (dec key j) none old)

  find-run :
      (os : List (Op K V)) (m : HashMap K V) (j : K)
      → find dec j (run os m) ≡ last_value os j (find dec j m)
  find-run [] m j = refl
  find-run (emplaces key v ∷ os) m j =
      find-run os (emplace dec key v m) j
      ∙ ap (last_value os j) (HashMap.find-emplace dec key j v m)
  find-run (erases key ∷ os) m j =
      find-run os (erase dec key m) j ∙ ap (last_value os j) (HashMap.find-erase dec key j m)

  -- After any calls of `emplace` and `erase` on an empty map, `get_val` of a key is what the last call
  -- for that key has left: the value that it emplaced, or none where it erased the key or there was no
  -- such call; and `is_key_exist` is true exactly if that is a value.
  pub map_is_function :
      (os : List (Op K V)) (j : K)
      → (get_val dec j (run os []) ≡ last_value os j none)
        × (is_key_exist dec j (run os []) ≡ is_some dec (last_value os j none))
  unfolding get_val is_key_exist find
  map_is_function os j = (find-run os [] j, ap (is_some dec) (find-run os [] j))
