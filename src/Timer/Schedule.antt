-- ===== src/Timer/Schedule.antt =====
-- timer/timer.h: `Timer`. Times are nanoseconds of the clock, whose readings are arguments. A
-- method, and one round of the loop of the tick thread, is one step here, from its access to the map to its
-- post; Timer/Tick takes both apart.
pub mod History
pub mod Cancel
pub mod Order
pub mod Repeat
pub mod Nodes
pub mod Once
use high_performance_concurr.Base.{
  ℕ, ◌+◌, ◌-◌, ◌*◌, ◌/◌, ◌%◌, ◌^◌, Bool, true, false, Option, none, some, List, [], ◌∷◌, ltb, ◌&&◌,
  not, if◌then◌else◌, ℕ_discrete, length,
}
use high_performance_concurr.Timer.HashMap
use high_performance_concurr.Timer.HashMap.{HashMap}

-- `IdState`.
pub data IdState : Type 0 where
  running : IdState

-- `TimerNode`; a callback is a value of `Task`.
pub record Node (Task : Type 0) : Type 0 where
  pub tm_point : ℕ
  pub callback : Task
  pub id : ℕ
  pub repeated_num : ℕ
  pub is_period : Bool
  pub is_repeated : Bool
  pub period : ℕ

-- `tm_queue` with its top first, `tm_running`, `tm_id`, an `int` by its bit pattern, and
-- `tm_id_state_map`.
pub record Timer (Task : Type 0) : Type 0 where
  pub queue : List (Node Task)
  pub on : Bool
  pub next_id : ℕ
  pub states : HashMap ℕ IdState

abbrev pub ns_per_ms : ℕ
ns_per_ms = 1000000

-- What a round of `run_local` does: the loop ends, it waits for a notification or for a time, it
-- drops a node that was cancelled, or it posts a node's callback to the thread pool.
pub data Action (Task : Type 0) : Type 0 where
  ends : Action Task
  waits : Action Task
  waits_for : ℕ → Action Task
  drops : ℕ → Action Task
  posts : ℕ → Task → Action Task

-- `duration_cast<milliseconds>(s.tn_tm_point - now).count() > 0`.
abbrev pub is_later : ℕ → ℕ → Bool
is_later tm_point now = ltb 0 ((tm_point - now) / ns_per_ms)

module _ {Task : Type 0} where
  -- `tm_queue.push`. The top is a node of the least time; of those with one time, the first pushed, where
  -- `priority_queue` leaves the choice open.
  unfoldable pub push : Node Task → List (Node Task) → List (Node Task)
  push s [] = s ∷ []
  push s (x ∷ xs) = if ltb s.tm_point x.tm_point then s ∷ x ∷ xs else x ∷ push s xs

  -- The constructor.
  abbrev pub init : Timer Task
  init = record { queue = []; on = true; next_id = 0; states = [] }

  -- What `run_after`, `run_at` and `run_repeated` have in common, with the node less its identifier.
  unfoldable pub add_node : Node Task → Timer Task → Timer Task × ℕ
  add_node s t = (
    record t {
      queue = push (record s { id = t.next_id }) t.queue;
      next_id = (t.next_id + 1) % 2 ^ 32;
      states = HashMap.emplace ℕ_discrete t.next_id running t.states;
    },
    t.next_id,
  )

  -- The nodes that the three methods make, before they have an identifier.
  abbrev pub after_node : ℕ → ℕ → Bool → Task → Node Task
  after_node now ms is_period f = record {
    tm_point = now + ms * ns_per_ms;
    callback = f;
    id = 0;
    repeated_num = 0;
    is_period = is_period;
    is_repeated = false;
    period = ms * ns_per_ms;
  }

  abbrev pub at_node : ℕ → Task → Node Task
  at_node time_point f = record {
    tm_point = time_point;
    callback = f;
    id = 0;
    repeated_num = 0;
    is_period = false;
    is_repeated = false;
    period = 0;
  }

  abbrev pub repeated_node : ℕ → ℕ → ℕ → Task → Node Task
  repeated_node now ms repeated_num f = record {
    tm_point = now + ms * ns_per_ms;
    callback = f;
    id = 0;
    repeated_num = repeated_num;
    is_period = false;
    is_repeated = true;
    period = ms * ns_per_ms;
  }

  unfoldable pub run_after : ℕ → ℕ → Bool → Task → Timer Task → Timer Task × ℕ
  run_after now ms is_period f = add_node (after_node now ms is_period f)

  unfoldable pub run_at : ℕ → Task → Timer Task → Timer Task × ℕ
  run_at time_point f = add_node (at_node time_point f)

  unfoldable pub run_repeated : ℕ → ℕ → ℕ → Task → Timer Task → Timer Task × ℕ
  run_repeated now ms repeated_num f = add_node (repeated_node now ms repeated_num f)

  -- `Timer::size`.
  unfoldable pub size : Timer Task → ℕ
  size t = length t.queue

  unfoldable pub cancel : ℕ → Timer Task → Timer Task
  cancel id t =
      if HashMap.is_key_exist ℕ_discrete id t.states
      then record t { states = HashMap.erase ℕ_discrete id t.states }
      else t

  -- A node that is due has left the queue: back with it if it is to run again, and its callback is
  -- posted. `now` is the second reading of the clock.
  unfoldable pub fire : ℕ → Node Task → Timer Task → Timer Task × Action Task
  fire now s t =
      if not (HashMap.is_key_exist ℕ_discrete s.id t.states)
      then (t, drops s.id)
      else if s.is_period
      then (
        record t { queue = push (record s { tm_point = now + s.period }) t.queue },
        posts s.id s.callback,
      )
      else if s.is_repeated && ltb 0 s.repeated_num
      then (
        record t {
          queue =
              push (record s { tm_point = now + s.period; repeated_num = s.repeated_num - 1 })
                t.queue;
        },
        posts s.id s.callback,
      )
      else (t, posts s.id s.callback)

  -- The rest of a round, on the queue.
  unfoldable pub round : ℕ → ℕ → List (Node Task) → Timer Task → Timer Task × Action Task
  round now now' [] t = (t, waits)
  round now now' (s ∷ rest) t =
      if is_later s.tm_point now
      then (t, waits_for (s.tm_point - now))
      else fire now' s (record t { queue = rest })

  -- One round of `run_local`; `now` and `now'` are its readings of the clock.
  unfoldable pub tick : ℕ → ℕ → Timer Task → Timer Task × Action Task
  tick now now' t = if t.on then round now now' t.queue t else (t, ends)
