-- ===== src/Timer/Schedule/Repeat.antt =====
-- How often a timer of `run_repeated` runs.
use high_performance_concurr.Base.{
  ℕ, zero, suc, ◌+◌, ◌*◌, ◌≡◌, refl, ap, true, false, List, [], ◌∷◌, arith, replicate,
}
use high_performance_concurr.Timer.HashMap
use high_performance_concurr.Timer.Schedule.{
  Timer, posts, running, push, tick, round, fire, init, run_repeated, add_node, ns_per_ms,
}
use high_performance_concurr.Timer.Schedule.History.{Event, repeated, ticks, run}

module _ {Task : Type 0} where
  -- The timer as it is while its only node is one that repeats and has `n` repetitions left.
  abbrev pub repeating : ℕ → ℕ → ℕ → ℕ → ℕ → Task → Timer Task
  repeating next id tm_point period n f = record {
    queue =
        record {
          tm_point = tm_point;
          callback = f;
          id = id;
          repeated_num = n;
          is_period = false;
          is_repeated = true;
          period = period;
        }
        ∷ [];
    on = true;
    next_id = next;
    states = (id, running) ∷ [];
  }

  -- Rounds that are each a period behind the one before, the first at a time.
  abbrev pub rounds_from : ℕ → ℕ → ℕ → List (Event Task)
  rounds_from at_time period zero = []
  rounds_from at_time period (suc k) =
      ticks at_time at_time ∷ rounds_from (at_time + period) period k

  round_repeats :
      (next id at_time period n : ℕ) (f : Task)
      → tick at_time at_time (repeating next id at_time period (suc n) f)
        ≡ (repeating next id (at_time + period) period n f, posts id f)
  unfolding tick round fire push HashMap.is_key_exist HashMap.find
  round_repeats next id at_time period n f = ground arith

  round_ends :
      (next id at_time period : ℕ) (f : Task)
      → tick at_time at_time (repeating next id at_time period 0 f)
        ≡ (record (repeating next id at_time period 0 f) { queue = [] }, posts id f)
  unfolding tick round fire push HashMap.is_key_exist HashMap.find
  round_ends next id at_time period f = ground arith

  rounds_post :
      (next id at_time period n : ℕ) (f : Task)
      → run (rounds_from at_time period (suc n)) (repeating next id at_time period n f) ≡ (
        record (repeating next id (at_time + n * period) period 0 f) { queue = [] },
        replicate (suc n) (id, f),
      )
  rounds_post next id at_time period zero f = rw (round_ends next id at_time period f) refl
  rounds_post next id at_time period (suc n) f =
      rw (round_repeats next id at_time period n f)
        (ap (λ (t, out). (t, (id, f) ∷ out)) (rounds_post next id (at_time + period) period n f))

  -- The first node of a new timer, from `run_repeated` with a count of `n`, runs `n + 1` times: as
  -- many rounds, each at the node's time, post its callback as many times, and nothing is left.
  pub repeats_once_more :
      (now ms n : ℕ) (f : Task)
      → let period : ℕ = ms * ns_per_ms in
        let (t, out) = run (repeated now ms n f ∷ rounds_from (now + period) period (suc n)) init in
        (out ≡ replicate (suc n) (0, f)) × (t.queue ≡ [])
  unfolding run_repeated add_node push HashMap.emplace
  repeats_once_more now ms n f =
      let all = rounds_post 1 0 (now + ms * ns_per_ms) (ms * ns_per_ms) n f in
      (ap (λ r. r.1) all, ap (λ r. r.0.queue) all)
