-- ===== src/Net/Epoll/Reaction.antt =====
-- What `execute_cbs` does on each event that `epoll_wait` reports, said without `choose`.
use high_performance_concurr.Base.{
  ℕ, ◌≡◌, ◌≢◌, Option, Bool, true, false, Bool-cases, ◌||◌, none, some, List, [], ◌∷◌, inl, inr,
  Option-cases, ℕ_discrete, Outcome, ok,
}
use high_performance_concurr.Timer.HashMap
use high_performance_concurr.Net.Epoll.{
  Events, IoEvent, Epoll, Ctl, runs, removes, nothing, run_if, first_of, choose, epoll_del_all,
  execute_cb,
}

-- The table has an entry of the descriptor.
abbrev pub IsWatched : {Kernel Callback : Type 0} → ℕ → Epoll Kernel Callback → Type 0
IsWatched fd ep = HashMap.find ℕ_discrete fd ep.event_map ≢ none

module _ {Kernel Callback : Type 0} (ctl : Ctl → Kernel → Kernel × Bool)
    (call : Callback → Epoll Kernel Callback → Outcome (Epoll Kernel Callback)) where
  -- A callback, if there is one, has run from `ep` to `mid`.
  abbrev pub Ran : Option Callback → Epoll Kernel Callback → Epoll Kernel Callback → Type 0
  Ran none ep mid = mid ≡ ep
  Ran (some cb) ep mid = call cb ep ≡ ok mid

  -- On an error the callback for reading has run; where there is none, that for writing; where there
  -- is none either, the descriptor is no longer watched.
  abbrev pub Failed :
      ℕ → Option Callback → Option Callback → Epoll Kernel Callback → Epoll Kernel Callback → Type 0
  Failed fd (some cb) w ep mid = call cb ep ≡ ok mid
  Failed fd none (some cb) ep mid = call cb ep ≡ ok mid
  Failed fd none none ep mid = mid ≡ epoll_del_all ctl fd ep

  -- What an event of `fd` has done, whose entry is `io`: input comes before output, and both before
  -- an error or a hangup.
  pub data Reaction (fd : ℕ) (events : Events) (io : IoEvent Callback)
      (ep mid : Epoll Kernel Callback) : Type 0 where
    reads : events.input ≡ true → Ran io.read_callback ep mid → Reaction fd events io ep mid
    writes :
        events.input ≡ false
        → events.output ≡ true
        → Ran io.write_callback ep mid
        → Reaction fd events io ep mid
    fails :
        events.input ≡ false
        → events.output ≡ false
        → (events.error || events.hangup) ≡ true
        → Failed fd io.read_callback io.write_callback ep mid
        → Reaction fd events io ep mid
    passes :
        events.input ≡ false
        → events.output ≡ false
        → (events.error || events.hangup) ≡ false
        → mid ≡ ep
        → Reaction fd events io ep mid

  -- Each event in turn has done this, from where the one before it left the poller.
  abbrev pub Dispatched : List (ℕ × Events) → Epoll Kernel Callback → Epoll Kernel Callback → Type 0
  Dispatched [] ep after = after ≡ ep
  Dispatched ((fd, events) ∷ es) ep after =
      (io : IoEvent Callback) × (mid : Epoll Kernel Callback) × (HashMap.find ℕ_discrete fd
          ep.event_map
        ≡ some io)
      × Reaction fd events io ep mid
      × Dispatched es mid after

  if_there :
      (cb : Option Callback) (fd : ℕ) (ep mid : Epoll Kernel Callback)
      → (elim (run_if ctl cb) [
        | runs cb ↦ call cb ep
        | removes ↦ ok (epoll_del_all ctl fd ep)
        | nothing ↦ ok ep
      ])
        ≡ ok mid
      → Ran cb ep mid
  if_there none fd ep mid e = cc
  if_there (some cb) fd ep mid e = e

  first_there :
      (r w : Option Callback) (fd : ℕ) (ep mid : Epoll Kernel Callback)
      → (elim (first_of ctl r w) [
        | runs cb ↦ call cb ep
        | removes ↦ ok (epoll_del_all ctl fd ep)
        | nothing ↦ ok ep
      ])
        ≡ ok mid
      → Failed fd r w ep mid
  first_there (some cb) w fd ep mid e = e
  first_there none (some cb) fd ep mid e = e
  first_there none none fd ep mid e = cc

  from_ok : {ep mid : Epoll Kernel Callback} → ok ep ≡ ok mid → mid ≡ ep
  from_ok e = cc

  choice-Reaction :
      (fd : ℕ) (events : Events) (io : IoEvent Callback) (ep mid : Epoll Kernel Callback)
      → (elim (choose ctl events io) [
        | runs cb ↦ call cb ep
        | removes ↦ ok (epoll_del_all ctl fd ep)
        | nothing ↦ ok ep
      ])
        ≡ ok mid
      → Reaction fd events io ep mid
  unfolding choose
  choice-Reaction fd events io ep mid e = elim (Bool-cases events.input) [
    | inl input ↦ reads input (if_there io.read_callback fd ep mid (simp input at e))
    | inr no_input ↦ elim (Bool-cases events.output) [
      | inl output ↦
          writes no_input output
            (if_there io.write_callback fd ep mid (simp (no_input, output) at e))
      | inr no_output ↦ elim (Bool-cases (events.error || events.hangup)) [
        | inl failing ↦ fails no_input no_output failing (
            first_there io.read_callback io.write_callback fd ep mid
              (simp (no_input, no_output, failing) at e))
        | inr fine ↦
            passes no_input no_output fine (from_ok (simp (no_input, no_output, fine) at e))
      ]
    ]
  ]

  pub execute_cb-Reaction :
      (fd : ℕ) (events : Events) (ep mid : Epoll Kernel Callback)
      → IsWatched fd ep
      → execute_cb ctl call fd events ep ≡ ok mid
      → (io : IoEvent Callback) × (HashMap.find ℕ_discrete fd ep.event_map ≡ some io)
        × Reaction fd events io ep mid
  unfolding execute_cb
  execute_cb-Reaction fd events ep mid there e =
      elim (Option-cases (HashMap.find ℕ_discrete fd ep.event_map)) [
        | inl unknown ↦ absurd (there unknown)
        | inr (io, known) ↦
            (io, known, choice-Reaction fd events io ep mid (rw (execute_cb, known) at e))
      ]
