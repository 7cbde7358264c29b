-- ===== src/Net/Epoll/Dispatch.antt =====
-- `execute_cbs` on what `epoll_wait` reports.
use high_performance_concurr.Base.{
  ℕ, zero, suc, ◌≡◌, ◌≢◌, ◌++◌, Option, replicate, length, ◌>>=◌, refl, Bool, none, some, List, [],
  ◌∷◌, arith, All, ◌⊎◌, inl, inr, Option-cases, ℕ_discrete, Outcome, ok,
}
use high_performance_concurr.Timer.HashMap
use high_performance_concurr.Net.Epoll.{
  Events, IoEvent, Epoll, Ctl, Choice, runs, removes, nothing, choose, epoll_del_all, execute_cb,
  execute_cbs, poll,
}
use high_performance_concurr.Net.Epoll.Reaction.{IsWatched, Dispatched, execute_cb-Reaction}

-- A run that ends, and after which the descriptors are watched that were, but for `fd`.
pub record Keeps {Kernel Callback : Type 0} (fd : ℕ) (ep : Epoll Kernel Callback)
    (r : Outcome (Epoll Kernel Callback)) : Type 0 where
  pub after : Epoll Kernel Callback
  pub result : r ≡ ok after
  pub kept : (j : ℕ) → j ≢ fd → IsWatched j ep → IsWatched j after

-- No descriptor is reported twice.
abbrev pub IsOnce : List (ℕ × Events) → Type 0
IsOnce [] = Unit {0}
IsOnce (e ∷ es) = All (λ d. d.0 ≢ e.0) es × IsOnce es

abbrev pub AllWatched :
    {Kernel Callback : Type 0} → List (ℕ × Events) → Epoll Kernel Callback → Type 0
AllWatched es ep = All (λ d. IsWatched d.0 ep) es

All-kept :
    {Kernel Callback : Type 0} (fd : ℕ) (es : List (ℕ × Events)) (ep after : Epoll Kernel Callback)
    → ((j : ℕ) → j ≢ fd → IsWatched j ep → IsWatched j after)
    → All (λ d. d.0 ≢ fd) es
    → AllWatched es ep
    → AllWatched es after
All-kept fd [] ep after kept others w = tt
All-kept fd (e ∷ es) ep after kept others w =
    (kept e.0 others.0 w.0, All-kept fd es ep after kept others.1 w.1)

-- One of the two callbacks of an entry.
abbrev pub Has : {Callback : Type 0} → IoEvent Callback → Callback → Type 0
Has io cb = (io.read_callback ≡ some cb) ⊎ (io.write_callback ≡ some cb)

module _ {Kernel Callback : Type 0} (ctl : Ctl → Kernel → Kernel × Bool) where
  removed-Keeps : (fd : ℕ) (ep : Epoll Kernel Callback) → Keeps fd ep (ok (epoll_del_all ctl fd ep))
  unfolding epoll_del_all
  removed-Keeps fd ep = record {
    after = epoll_del_all ctl fd ep;
    result = refl;
    kept = λ j ne there. ground (arith, HashMap.find-erase ℕ_discrete fd j ep.event_map);
  }

  choose-Has :
      (events : Events) (io : IoEvent Callback) (cb : Callback)
      → choose ctl events io ≡ runs cb
      → Has io cb
  unfolding choose
  choose-Has events io cb e = ground arith

  module _ (call : Callback → Epoll Kernel Callback → Outcome (Epoll Kernel Callback))
      (keeps : (fd : ℕ) (io : IoEvent Callback) (cb : Callback) (ep : Epoll Kernel Callback)
        → HashMap.find ℕ_discrete fd ep.event_map ≡ some io
        → Has io cb
        → Keeps fd ep (call cb ep)) where
    choice-Keeps :
        (fd : ℕ) (io : IoEvent Callback) (ep : Epoll Kernel Callback) (ch : Choice Callback)
        → HashMap.find ℕ_discrete fd ep.event_map ≡ some io
        → ((cb : Callback) → ch ≡ runs cb → Has io cb)
        → Keeps fd ep (elim ch [
          | runs cb ↦ call cb ep
          | removes ↦ ok (epoll_del_all ctl fd ep)
          | nothing ↦ ok ep
        ])
    choice-Keeps fd io ep (runs cb) known has = keeps fd io cb ep known (has cb refl)
    choice-Keeps fd io ep removes known has = removed-Keeps fd ep
    choice-Keeps fd io ep nothing known has = record {
      after = ep;
      result = refl;
      kept = λ j ne there. there;
    }

    execute_cb-Keeps :
        (fd : ℕ) (events : Events) (ep : Epoll Kernel Callback)
        → IsWatched fd ep
        → Keeps fd ep (execute_cb ctl call fd events ep)
    unfolding execute_cb
    execute_cb-Keeps fd events ep there =
        elim (Option-cases (HashMap.find ℕ_discrete fd ep.event_map)) [
          | inl unknown ↦ absurd (there unknown)
          | inr (io, known) ↦
              rw (execute_cb, known)
                (choice-Keeps fd io ep (choose ctl events io) known (choose-Has events io))
        ]

    -- `execute_cbs` runs to its end, without its assertion failing, on events of different watched
    -- descriptors, where each callback ends and takes no descriptor out of the table but the one
    -- whose event it answers, and each event has its reaction.
    pub execute_cbs_returns :
        (es : List (ℕ × Events)) (ep : Epoll Kernel Callback)
        → IsOnce es
        → AllWatched es ep
        → (after : Epoll Kernel Callback) × (execute_cbs ctl call es ep ≡ ok after)
          × Dispatched ctl call es ep after
    unfolding execute_cbs
    execute_cbs_returns [] ep once w = (ep, refl, refl)
    execute_cbs_returns ((fd, events) ∷ es) ep once w =
        let k = execute_cb-Keeps fd events ep w.0 in
        let (io, known, reaction) =
          execute_cb-Reaction ctl call fd events ep k.after w.0 k.result in
        let (after, ran, rest) =
          execute_cbs_returns es k.after once.1 (All-kept fd es ep k.after k.kept once.0 w.1) in
        (after, rw k.result ran, (io, k.after, known, reaction, rest))

    -- `poll` goes on after each `epoll_wait` that fails, and returns the number of events of the first
    -- that does not, without the assertion of `execute_cbs` failing, where the events are of different
    -- watched descriptors, and each callback ends and takes no descriptor out of the table but the one
    -- whose event it answers. It has run, for each event in the order reported, the callback for
    -- reading of the entry that the table has then if the event has input; otherwise that for writing if
    -- it has output; otherwise, on an error or a hangup, the first of the two that is there, and if
    -- none is, has taken the descriptor out; and nothing where the callback is missing or no bit is
    -- set.
    pub poll_ends :
        (k : ℕ) (es : List (ℕ × Events)) (answers : List (Option (List (ℕ × Events))))
        (ep : Epoll Kernel Callback)
        → IsOnce es
        → AllWatched es ep
        → (after : Epoll Kernel Callback) × (poll ctl call
              (replicate k none ++ (some es ∷ answers))
              ep
            ≡ ok (after, some (length es)))
          × Dispatched ctl call es ep after
    unfolding poll
    poll_ends zero es answers ep once w =
        let (after, ran, did) = execute_cbs_returns es ep once w in (after, rw (ran, ◌>>=◌), did)
    poll_ends (suc k) es answers ep once w = poll_ends k es answers ep once w
