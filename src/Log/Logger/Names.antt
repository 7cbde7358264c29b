-- ===== src/Log/Logger/Names.antt =====
-- log/log.cpp, `Logger::init`: the path of a log file is split behind its last '/'.
use high_performance_concurr.Base.{
  ℕ, ◌≡◌, ◌≢◌, refl, subst, ap, Option, none, some, List, [], ◌∷◌, ◌++◌, ◌==◌, arith, All,
  some-injective, if◌then◌else◌, ==_iff, Bool-cases, inl, inr,
}

abbrev pub slash : ℕ
slash = 47

-- The parts of a path with one more character in front.
abbrev pub split_cons : ℕ → List ℕ → Option (List ℕ × List ℕ) → Option (List ℕ × List ℕ)
split_cons c cs (some (dir, name)) = some (c ∷ dir, name)
split_cons c cs none = if c == slash then some (c ∷ [], cs) else none

-- `strrchr`, as what stands up to the '/' and what stands behind it; none where there is none.
unfoldable pub split_path : List ℕ → Option (List ℕ × List ℕ)
split_path [] = none
split_path (c ∷ cs) = split_cons c cs (split_path cs)

-- A path has no '/'.
abbrev pub IsPlain : List ℕ → Type 0
IsPlain = All (λ c. c ≢ slash)

cons-IsPlain :
    (c : ℕ) (cs : List ℕ) (o : Option (List ℕ × List ℕ))
    → split_cons c cs o ≡ none
    → (c ≢ slash) × (o ≡ none)
cons-IsPlain c cs (some (d, n)) e = cc
cons-IsPlain c cs none e = ground arith

pub none-IsPlain : (cs : List ℕ) → split_path cs ≡ none → IsPlain cs
unfolding split_path
none-IsPlain [] e = tt
none-IsPlain (c ∷ cs) e =
    let (other, rest) = cons-IsPlain c cs (split_path cs) e in (other, none-IsPlain cs rest)

-- What a path is split into: a directory that ends in '/', and a name without one.
pub record IsSplit (path dir name : List ℕ) : Type 0 where
  pub joins : dir ++ name ≡ path
  pub plain : IsPlain name
  pub stem : List ℕ
  pub ends : dir ≡ stem ++ (slash ∷ [])

cons-IsSplit :
    (c : ℕ) (cs dir name : List ℕ) (o : Option (List ℕ × List ℕ))
    → (o ≡ none → IsPlain cs)
    → ((d n : List ℕ) → o ≡ some (d, n) → IsSplit cs d n)
    → split_cons c cs o ≡ some (dir, name)
    → IsSplit (c ∷ cs) dir name
cons-IsSplit c cs dir name (some (d, n)) plain rest e =
    let parts : (c ∷ d, n) ≡ (dir, name) = some-injective e in
    let s = rest d n refl in
    subst (λ p. IsSplit (c ∷ cs) p.0 p.1) parts
      (record {
        joins = ap (λ xs. c ∷ xs) s.joins;
        plain = s.plain;
        stem = c ∷ s.stem;
        ends = ap (λ xs. c ∷ xs) s.ends;
      })
cons-IsSplit c cs dir name none plain rest e = elim (Bool-cases (c == slash)) [
  | inl last ↦
      let parts : (c ∷ [], cs) ≡ (dir, name) = some-injective (rw last at e) in
      subst (λ p. IsSplit (c ∷ cs) p.0 p.1) parts
        (record {
          joins = refl;
          plain = plain refl;
          stem = [];
          ends = ap (λ x. x ∷ []) ((==_iff c slash).0 last);
        })
  | inr other ↦
      let nothing : ◌≡◌ {A = Option (List ℕ × List ℕ)} none (some (dir, name)) = rw other at e in cc
]

-- Where the path has a '/', the parts joined are the path, the directory ends with the last '/', and
-- the name has none.
pub split_path-IsSplit :
    (path dir name : List ℕ) → split_path path ≡ some (dir, name) → IsSplit path dir name
unfolding split_path
split_path-IsSplit [] dir name e = cc
split_path-IsSplit (c ∷ cs) dir name e =
    cons-IsSplit c cs dir name (split_path cs) (none-IsPlain cs) (λ d n. split_path-IsSplit cs d n)
      e
