-- ===== src/Net/Connection/Answers.antt =====
-- What the kernel can answer to the calls of `write` in one call of `do_write`.
use high_performance_concurr.Base.{
  ℕ, ◌-◌, ◌≤◌, ◌≡◌, refl, Bool, true, false, List, [], ◌∷◌, arith, ◌⊎◌, inl, inr, Bool-cases, ◌==◌,
  if◌then◌else◌,
}
use high_performance_concurr.Memory.Buffer.{Io, done, again, failed}
use high_performance_concurr.Net.Connection.{Drain, drained, blocked, broken}

-- The answers of the kernel to one call of `do_write`, for a buffer of `n` bytes: none takes more than
-- is left, none is an error, and there is one for each call.
abbrev pub Answers : List Io → ℕ → Type 0
Answers [] n = n ≡ 0
Answers (done k ∷ ios) n = (k ≤ n) × Answers ios (n - k)
Answers (again ∷ ios) n = Unit {0}
Answers (failed ∷ ios) n = n ≡ 0

-- The same, where the last answer can be an error.
abbrev pub Replies : List Io → ℕ → Type 0
Replies [] n = n ≡ 0
Replies (done k ∷ ios) n = (k ≤ n) × Replies ios (n - k)
Replies (again ∷ ios) n = Unit {0}
Replies (failed ∷ ios) n = Unit {0}

-- Whether the loop comes to an error: one that is answered while bytes are left.
abbrev pub breaks : List Io → ℕ → Bool
breaks [] n = false
breaks (done k ∷ ios) n = if n == 0 then false else if k == 0 then false else breaks ios (n - k)
breaks (again ∷ ios) n = false
breaks (failed ∷ ios) n = if n == 0 then false else true

-- What answers of the kernel leave of `n` bytes.
abbrev pub left : List Io → ℕ → ℕ
left [] n = n
left (done k ∷ ios) n = if k == 0 then n else left ios (n - k)
left (again ∷ ios) n = n
left (failed ∷ ios) n = n

pub zero-sub : (k : ℕ) → 0 - k ≡ 0
zero-sub k = omega arith

pub sub-zero : (n : ℕ) → n - 0 ≡ n
sub-zero n = omega arith

pub left-zero : (ios : List Io) → left ios 0 ≡ 0
left-zero [] = refl
left-zero (done k ∷ ios) = elim (Bool-cases (k == 0)) [
  | inl none_taken ↦ rw none_taken
  | inr some_taken ↦ rw (some_taken, zero-sub k, left-zero ios)
]
left-zero (again ∷ ios) = refl
left-zero (failed ∷ ios) = refl

pub breaks-zero : (ios : List Io) → breaks ios 0 ≡ false
breaks-zero [] = refl
breaks-zero (done k ∷ ios) = refl
breaks-zero (again ∷ ios) = refl
breaks-zero (failed ∷ ios) = refl

pub if_same : (b : Bool) → (if b then false else false) ≡ false
if_same true = refl
if_same false = refl

pub Answers-Replies : (ios : List Io) (n : ℕ) → Answers ios n → Replies ios n
Answers-Replies [] n h = h
Answers-Replies (done k ∷ ios) n (le, h) = (le, Answers-Replies ios (n - k) h)
Answers-Replies (again ∷ ios) n h = tt
Answers-Replies (failed ∷ ios) n h = tt

pub breaks-Answers : (ios : List Io) (n : ℕ) → Answers ios n → breaks ios n ≡ false
breaks-Answers [] n h = refl
breaks-Answers (done k ∷ ios) n (le, h) = ground (arith, breaks-Answers ios (n - k) h)
breaks-Answers (again ∷ ios) n h = refl
breaks-Answers (failed ∷ ios) n h = rw h refl

-- The loop came to an error; or it stopped where the buffer is empty or the kernel takes no more.
abbrev pub Stops : Drain → Bool → ℕ → Type 0
Stops drain broke n =
    ((drain ≡ broken) × (broke ≡ true))
    ⊎ ((broke ≡ false) × ((drain ≡ blocked) ⊎ ((drain ≡ drained) × (n ≡ 0))))
