-- ===== src/Threadpool/Shutdown.antt =====
-- The destructor sets `tp_run` and notifies all without the lock, so a worker that is about to sleep
-- misses both.
use high_performance_concurr.Base.{
  ℕ, zero, suc, ◌≡◌, ◌≢◌, refl, sym, subst, ◌∙◌, Bool, true, false, none, some, List, [], ◌∷◌,
  arith, inl, inr, Option-cases, Bool-cases, get_elem?, set, ◌==◌, All, map, ℕ_discrete,
  get_elem?-set_ne,
}
use high_performance_concurr.Threadpool.{
  Threadpool, Worker, looping, waiting, dozing, asleep, took, running, finished, ended, Event,
  tests, queues, notifies_one, works, wakes, stops, notifies_all, wake, work, enqueue, is_locked,
  asleep_at, step, run_all, woken,
}

module _ {Task : Type 0} where
  -- The pool is stopped, the worker sleeps, and no call is left that would wake it.
  pub record IsStuck (i : ℕ) (p : Threadpool Task) : Type 0 where
    pub off : p.run ≡ false
    pub sleeps : get_elem? p.workers i ≡ some asleep
    pub no_call : p.posting ≡ []
    pub no_notify : p.notifies ≡ 0

  -- An event that does not wake the worker without a notification, nor repeats the destructor's call.
  abbrev pub Undisturbed : ℕ → Event Task → Type 0
  Undisturbed i (tests t) = Unit {0}
  Undisturbed i (queues j) = Unit {0}
  Undisturbed i (notifies_one j) = Unit {0}
  Undisturbed i (works j) = Unit {0}
  Undisturbed i (wakes j) = j ≢ i
  Undisturbed i stops = Unit {0}
  Undisturbed i notifies_all = ⊥

  wake-elem :
      (i j : ℕ) (b : Bool) (ts : List Task) (p : Threadpool Task)
      → j ≢ i
      → get_elem? (wake j b ts p).0.workers i ≡ get_elem? p.workers i
  unfolding wake
  wake-elem i j true [] p ne = get_elem?-set_ne p.workers j i dozing ne
  wake-elem i j false [] p ne = get_elem?-set_ne p.workers j i ended ne
  wake-elem i j true (t ∷ ts) p ne = get_elem?-set_ne p.workers j i (took t) ne
  wake-elem i j false (t ∷ ts) p ne = get_elem?-set_ne p.workers j i (took t) ne

  work-elem :
      (i j : ℕ) (w : Worker Task) (p : Threadpool Task)
      → j ≢ i
      → get_elem? (work j w p).0.workers i ≡ get_elem? p.workers i
  unfolding work
  work-elem i j looping p ne = get_elem?-set_ne p.workers j i _ ne
  work-elem i j waiting p ne = elim (Bool-cases (is_locked p)) [
    | inl held ↦ simp held refl
    | inr free ↦ simp free (wake-elem i j p.run p.tasks p ne)
  ]
  work-elem i j dozing p ne = get_elem?-set_ne p.workers j i asleep ne
  work-elem i j asleep p ne = refl
  work-elem i j (took t) p ne = get_elem?-set_ne p.workers j i (running t) ne
  work-elem i j (running t) p ne = get_elem?-set_ne p.workers j i finished ne
  work-elem i j finished p ne = get_elem?-set_ne p.workers j i looping ne
  work-elem i j ended p ne = refl

  -- What a step of a worker leaves alone.
  record SameCalls (p p' : Threadpool Task) : Type 0 where
    run : p'.run ≡ p.run
    posting : p'.posting ≡ p.posting
    notifies : p'.notifies ≡ p.notifies

  wake-SameCalls :
      (j : ℕ) (b : Bool) (ts : List Task) (p : Threadpool Task) → SameCalls p (wake j b ts p).0
  unfolding wake
  wake-SameCalls j true [] p = record { run = refl; posting = refl; notifies = refl }
  wake-SameCalls j false [] p = record { run = refl; posting = refl; notifies = refl }
  wake-SameCalls j true (t ∷ ts) p = record { run = refl; posting = refl; notifies = refl }
  wake-SameCalls j false (t ∷ ts) p = record { run = refl; posting = refl; notifies = refl }

  work-SameCalls : (j : ℕ) (w : Worker Task) (p : Threadpool Task) → SameCalls p (work j w p).0
  unfolding work
  work-SameCalls j w p = ground (arith, wake-SameCalls j p.run p.tasks p)

  works-IsStuck :
      (i j : ℕ) (w : Worker Task) (p : Threadpool Task)
      → get_elem? p.workers j ≡ some w
      → IsStuck i p
      → IsStuck i (work j w p).0
  works-IsStuck i j w p there h = elim (ℕ_discrete j i) [
    | yes same ↦
        let asleep_there : w ≡ asleep = cc (there, same, h.sleeps) in rw asleep_there (unchanged j)
    | no other ↦
        let kept = work-SameCalls j w p in
        record {
          off = kept.run ∙ h.off;
          sleeps = work-elem i j w p other ∙ h.sleeps;
          no_call = kept.posting ∙ h.no_call;
          no_notify = kept.notifies ∙ h.no_notify;
        }
  ]
    where
      unchanged : (k : ℕ) → IsStuck i (work k asleep p).0
      unchanged k = unfold work in h

  step-IsStuck :
      (e : Event Task) (i : ℕ) (p : Threadpool Task)
      → Undisturbed i e
      → IsStuck i p
      → IsStuck i (step e p).0
  unfolding step enqueue
  step-IsStuck (tests t) i p u h = simp h.off h
  step-IsStuck (queues j) i p u h = elim (Bool-cases (is_locked p)) [
    | inl held ↦ simp held h
    | inr free ↦
        let no_post : get_elem? p.posting j ≡ none = rw h.no_call refl in simp (free, no_post) h
  ]
  step-IsStuck (notifies_one j) i p u h =
      let none_due : (p.notifies == 0) ≡ true = ground arith in simp none_due h
  step-IsStuck (works j) i p u h = elim (Option-cases (get_elem? p.workers j)) [
    | inl nothing ↦ rw (step, nothing) h
    | inr (w, there) ↦ rw (step, there) (works-IsStuck i j w p there h)
  ]
  step-IsStuck (wakes j) i p u h = elim (Bool-cases (asleep_at p.workers j)) [
    | inl sleeps ↦ simp sleeps (record {
      off = h.off;
      sleeps = get_elem?-set_ne p.workers j i waiting u ∙ h.sleeps;
      no_call = h.no_call;
      no_notify = h.no_notify;
    })
    | inr awake ↦ simp awake h
  ]
  step-IsStuck stops i p u h = record {
    off = refl;
    sleeps = h.sleeps;
    no_call = h.no_call;
    no_notify = h.no_notify;
  }
  step-IsStuck notifies_all i p u h = elim u [ ]

  run-IsStuck :
      (es : List (Event Task)) (i : ℕ) (p : Threadpool Task)
      → All (Undisturbed i) es
      → IsStuck i p
      → IsStuck i (run_all es p).0
  run-IsStuck [] i p u h = h
  run-IsStuck (e ∷ es) i p u h = run-IsStuck es i (step e p).0 u.1 (step-IsStuck e i p u.0 h)

  elem-set_self :
      (ws : List (Worker Task)) (i : ℕ) (w v : Worker Task)
      → get_elem? ws i ≡ some w
      → get_elem? (set ws i v) i ≡ some v
  elem-set_self [] i w v e = cc
  elem-set_self (x ∷ ws) zero w v e = refl
  elem-set_self (x ∷ ws) (suc i) w v e = elem-set_self ws i w v e

  elem-woken :
      (ws : List (Worker Task)) (i : ℕ)
      → get_elem? ws i ≡ some dozing
      → get_elem? (map woken ws) i ≡ some dozing
  elem-woken [] i e = cc
  elem-woken (w ∷ ws) zero e = let same : w ≡ dozing = cc in rw same
  elem-woken (w ∷ ws) (suc i) e = elem-woken ws i e

  -- A worker that has found no task and is about to sleep when the destructor sets `tp_run` and
  -- notifies all sleeps after that; then it sleeps through any history without a wake-up from
  -- nowhere, where no call of `post_task` is under way. The destructor, which joins it, never returns.
  pub shutdown_is_missed :
      (es : List (Event Task)) (i : ℕ) (p : Threadpool Task)
      → get_elem? p.workers i ≡ some dozing
      → p.posting ≡ []
      → p.notifies ≡ 0
      → All (Undisturbed i) es
      → get_elem? (run_all (stops ∷ notifies_all ∷ works i ∷ es) p).0.workers i ≡ some asleep
  unfolding step work
  shutdown_is_missed es i p dozes no_call no_notify u =
      let still = elem-woken p.workers i dozes in
      let asleep_now = elem-set_self (map woken p.workers) i dozing asleep still in
      let told : Threadpool Task = record p { run = false; workers = map woken p.workers } in
      let stuck : IsStuck i (record told { workers = set told.workers i asleep }) = record {
        off = refl;
        sleeps = asleep_now;
        no_call = no_call;
        no_notify = no_notify;
      } in
      let slept : (step (works i) told).0 ≡ record told { workers = set told.workers i asleep } =
        rw (step, still) in
      subst (λ q. get_elem? (run_all es q).0.workers i ≡ some asleep) (sym slept)
        ((run-IsStuck es i _ u stuck).sleeps)
