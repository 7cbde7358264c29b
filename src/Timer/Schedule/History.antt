-- ===== src/Timer/Schedule/History.antt =====
-- A history of a timer: the calls of its methods and the rounds of its tick thread, in any order.
use high_performance_concurr.Base.{ℕ, Bool, List, [], ◌∷◌, ◌++◌}
use high_performance_concurr.Timer.Schedule.{
  Timer, Action, ends, waits, waits_for, drops, posts, run_after, run_at, run_repeated, cancel,
  tick,
}

pub data Event (Task : Type 0) : Type 0 where
  after : ℕ → ℕ → Bool → Task → Event Task
  at_point : ℕ → Task → Event Task
  repeated : ℕ → ℕ → ℕ → Task → Event Task
  cancels : ℕ → Event Task
  ticks : ℕ → ℕ → Event Task

module _ {Task : Type 0} where
  -- What an action posts, with the node's identifier.
  abbrev pub posted : Action Task → List (ℕ × Task)
  posted ends = []
  posted waits = []
  posted (waits_for n) = []
  posted (drops id) = []
  posted (posts id f) = (id, f) ∷ []

  abbrev pub step : Event Task → Timer Task → Timer Task × List (ℕ × Task)
  step (after now ms is_period f) t = ((run_after now ms is_period f t).0, [])
  step (at_point time_point f) t = ((run_at time_point f t).0, [])
  step (repeated now ms n f) t = ((run_repeated now ms n f t).0, [])
  step (cancels id) t = (cancel id t, [])
  step (ticks now now') t = let (t', a) = tick now now' t in (t', posted a)

  abbrev pub run : List (Event Task) → Timer Task → Timer Task × List (ℕ × Task)
  run [] t = (t, [])
  run (e ∷ es) t = let (t', out) = step e t in let (t'', rest) = run es t' in (t'', out ++ rest)
