-- ===== src/Timer/Schedule/Cancel.antt =====
-- An identifier that `cancel` has taken out of the map stays out, and no round then fires its node.
use high_performance_concurr.Base.{
  ℕ, ◌+◌, ◌≤◌, ◌<◌, ◌≡◌, ◌≢◌, refl, none, List, [], ◌∷◌, arith, All, ◌⊎◌, inl, inr, Bool-cases,
  ℕ_discrete,
}
use high_performance_concurr.Timer.HashMap
use high_performance_concurr.Timer.Schedule.{
  Timer, Node, add_node, after_node, at_node, repeated_node, run_after, run_at, run_repeated,
  cancel, tick, round, fire, is_later,
}
use high_performance_concurr.Timer.Schedule.History.{
  Event, after, at_point, repeated, cancels, ticks, posted, step,
}

module _ {Task : Type 0} where
  -- The identifier was given out, and the map has no entry for it any more.
  pub record IsGone (id : ℕ) (t : Timer Task) : Type 0 where
    pub absent : HashMap.find ℕ_discrete id t.states ≡ none
    pub old : id < t.next_id

  abbrev pub Other : ℕ → ℕ × Task → Type 0
  Other id p = p.0 ≢ id

  pub cancel-IsGone : (id : ℕ) (t : Timer Task) → id < t.next_id → IsGone id (cancel id t)
  unfolding cancel HashMap.is_key_exist
  cancel-IsGone id t old = ground (arith, HashMap.find-erase ℕ_discrete id id t.states)

  pub cancel_other-IsGone : (j id : ℕ) (t : Timer Task) → IsGone id t → IsGone id (cancel j t)
  unfolding cancel HashMap.is_key_exist
  cancel_other-IsGone j id t g = ground (arith, HashMap.find-erase ℕ_discrete j id t.states)

  -- Behind a node that fires the map and the identifiers are as they were, and a post is of a node
  -- whose identifier the map has.
  pub record Fired (s : Node Task) (t t' : Timer Task) (out : List (ℕ × Task)) : Type 0 where
    pub states : t'.states ≡ t.states
    pub next_id : t'.next_id ≡ t.next_id
    pub on : t'.on ≡ t.on
    pub out_cases :
        (out ≡ [])
        ⊎ ((out ≡ (s.id, s.callback) ∷ []) × (HashMap.find ℕ_discrete s.id t.states ≢ none))

  pub fire-Fired :
      (now : ℕ) (s : Node Task) (t : Timer Task)
      → Fired s t (fire now s t).0 (posted (fire now s t).1)
  unfolding fire HashMap.is_key_exist
  fire-Fired now s t = ground arith

  Fired-IsGone :
      (s : Node Task) (id : ℕ) (t t' : Timer Task) (out : List (ℕ × Task))
      → IsGone id t
      → Fired s t t' out
      → IsGone id t' × All (Other id) out
  Fired-IsGone s id t t' out g f = (
    record { absent = rw f.states g.absent; old = rw f.next_id g.old },
    elim f.out_cases [
      | inl e ↦ rw e tt
      | inr (e, there) ↦ rw e (λ same. there (rw same g.absent), tt)
    ],
  )

  pub round-IsGone :
      (now now' : ℕ) (q : List (Node Task)) (id : ℕ) (t : Timer Task)
      → IsGone id t
      → IsGone id (round now now' q t).0 × All (Other id) (posted (round now now' q t).1)
  unfolding round
  round-IsGone now now' [] id t g = (g, tt)
  round-IsGone now now' (s ∷ rest) id t g = elim (Bool-cases (is_later s.tm_point now)) [
    | inl later ↦ rw later (g, tt)
    | inr due ↦
        let t1 : Timer Task = record t { queue = rest } in
        rw due (
          Fired-IsGone s id t1 (fire now' s t1).0 (posted (fire now' s t1).1)
            (record { absent = g.absent; old = g.old }) (fire-Fired now' s t1))
  ]

  next_id-add : (s : Node Task) (t : Timer Task) → (add_node s t).0.next_id ≤ t.next_id + 1
  unfolding add_node
  next_id-add s t = omega arith

  pub next_id-cancel : (id : ℕ) (t : Timer Task) → (cancel id t).next_id ≡ t.next_id
  unfolding cancel
  next_id-cancel id t = ground arith

  pub next_id-round :
      (now now' : ℕ) (q : List (Node Task)) (t : Timer Task)
      → (round now now' q t).0.next_id ≡ t.next_id
  unfolding round fire
  next_id-round now now' [] t = refl
  next_id-round now now' (s ∷ rest) t = ground arith

  next_id-tick : (now now' : ℕ) (t : Timer Task) → (tick now now' t).0.next_id ≡ t.next_id
  unfolding tick round fire
  next_id-tick now now' t = ground arith

  pub next_id-step : (e : Event Task) (t : Timer Task) → (step e t).0.next_id ≤ t.next_id + 1
  unfolding run_after run_at run_repeated
  next_id-step (after now ms p f) t = next_id-add (after_node now ms p f) t
  next_id-step (at_point p f) t = next_id-add (at_node p f) t
  next_id-step (repeated now ms n f) t = next_id-add (repeated_node now ms n f) t
  next_id-step (cancels j) t = omega (arith, next_id-cancel j t)
  next_id-step (ticks now now') t = omega (arith, next_id-tick now now' t)
