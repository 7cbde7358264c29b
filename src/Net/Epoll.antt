-- ===== src/Net/Epoll.antt =====
-- net/epoll.cpp, net/epoll.h: `Epoll`, a table of callbacks beside the interest list that the
-- kernel keeps. A descriptor is an `int` by its bit pattern. The kernel's `epoll_ctl` is a parameter.
pub mod Interest
pub mod Reaction
pub mod Dispatch
pub mod History
use mathlib.Core.Logic.{ite}
use high_performance_concurr.Base.{
  ℕ, ◌≡◌, Bool, true, false, Option, none, some, List, [], ◌∷◌, ◌&&◌, ◌||◌, not, if◌then◌else◌,
  ℕ_discrete, length, Outcome, ok, aborted, ◌>>=◌, ◌>>◌,
}
use high_performance_concurr.Timer.HashMap
use high_performance_concurr.Timer.HashMap.{HashMap}

-- The bits of an event mask that the code uses: EPOLLIN, EPOLLOUT, EPOLLERR and EPOLLHUP.
pub record Events : Type 0 where
  pub input : Bool
  pub output : Bool
  pub error : Bool
  pub hangup : Bool

-- `e | f`, `e & ~f` and `e == 0`.
abbrev pub union : Events → Events → Events
union e f = record {
  input = e.input || f.input;
  output = e.output || f.output;
  error = e.error || f.error;
  hangup = e.hangup || f.hangup;
}

abbrev pub without : Events → Events → Events
without e f = record {
  input = e.input && not f.input;
  output = e.output && not f.output;
  error = e.error && not f.error;
  hangup = e.hangup && not f.hangup;
}

abbrev pub is_zero : Events → Bool
is_zero e = not (e.input || e.output || e.error || e.hangup)

-- A call of `epoll_ctl`, and what it does: the kernel afterwards, and whether it succeeded.
pub data Ctl : Type 0 where
  adds : ℕ → Events → Ctl
  mods : ℕ → Events → Ctl
  dels : ℕ → Ctl

pub record IoEvent (Callback : Type 0) : Type 0 where
  pub event : Events
  pub read_callback : Option Callback
  pub write_callback : Option Callback

-- Which callback an event that the kernel reports runs; `removes` where none is left to run for an
-- error.
pub data Choice (Callback : Type 0) : Type 0 where
  runs : Callback → Choice Callback
  removes : Choice Callback
  nothing : Choice Callback

pub record Epoll (Kernel Callback : Type 0) : Type 0 where
  pub kernel : Kernel
  pub listen_fds : List ℕ
  pub event_map : HashMap ℕ (IoEvent Callback)

-- `set<int>::insert` and `erase`.
abbrev pub insert_fd : ℕ → List ℕ → List ℕ
insert_fd fd [] = fd ∷ []
insert_fd fd (x ∷ xs) = ite (ℕ_discrete x fd) (x ∷ xs) (x ∷ insert_fd fd xs)

abbrev pub erase_fd : ℕ → List ℕ → List ℕ
erase_fd fd [] = []
erase_fd fd (x ∷ xs) = ite (ℕ_discrete x fd) xs (x ∷ erase_fd fd xs)

-- The constructor; `created` is what `epoll_create1` makes, none where it fails.
unfoldable pub make : {Kernel Callback : Type 0} → Option Kernel → Outcome (Epoll Kernel Callback)
make none = aborted
make (some k) = ok (record { kernel = k; listen_fds = []; event_map = [] })

module _ {Kernel Callback : Type 0} (ctl : Ctl → Kernel → Kernel × Bool) where
  -- `ep_event_map[fd]` before the assignments of `epoll_add`: the entry that is there, or a new one.
  abbrev pub entry : Option (IoEvent Callback) → IoEvent Callback
  entry (some io) = io
  entry none = record {
    event = record { input = false; output = false; error = false; hangup = false };
    read_callback = none;
    write_callback = none;
  }

  abbrev pub with_callback : Events → Callback → IoEvent Callback → IoEvent Callback
  with_callback event cb io =
      if event.input
      then record io { read_callback = some cb }
      else if event.output
      then record io { write_callback = some cb }
      else io

  -- The operation and the mask of `epoll_add`.
  abbrev pub ctl_for : ℕ → Events → Option (IoEvent Callback) → Ctl
  ctl_for fd event none = adds fd event
  ctl_for fd event (some io) = mods fd (union io.event event)

  abbrev pub final_events : Events → Option (IoEvent Callback) → Events
  final_events event none = event
  final_events event (some io) = union io.event event

  unfoldable pub epoll_add : ℕ → Events → Callback → Epoll Kernel Callback → Epoll Kernel Callback
  epoll_add fd event cb ep =
      let old : Option (IoEvent Callback) = HashMap.find ℕ_discrete fd ep.event_map in
      let io : IoEvent Callback = record (with_callback event cb (entry old)) {
        event = final_events event old;
      } in
      let called : Kernel × Bool = ctl (ctl_for fd event old) ep.kernel in
      record ep {
        kernel = called.0;
        event_map = HashMap.emplace ℕ_discrete fd io ep.event_map;
        listen_fds = if called.1 then insert_fd fd ep.listen_fds else ep.listen_fds;
      }

  -- `epoll_del(int fd)`.
  unfoldable pub epoll_del_all : ℕ → Epoll Kernel Callback → Epoll Kernel Callback
  epoll_del_all fd ep = record ep {
    kernel = (ctl (dels fd) ep.kernel).0;
    event_map = HashMap.erase ℕ_discrete fd ep.event_map;
    listen_fds = erase_fd fd ep.listen_fds;
  }

  -- `target_event = target_event & ~event`, stored through the reference.
  abbrev pub lower : Events → IoEvent Callback → IoEvent Callback
  lower event io = record io { event = without io.event event }

  -- `epoll_del(int fd, int event)`.
  unfoldable pub epoll_del : ℕ → Events → Epoll Kernel Callback → Epoll Kernel Callback
  unfolding epoll_del_all
  epoll_del fd event ep = elim (HashMap.find ℕ_discrete fd ep.event_map) [
    | none ↦ ep
    | some io ↦
        let stored : Epoll Kernel Callback = record ep {
          event_map = HashMap.emplace ℕ_discrete fd (lower event io) ep.event_map;
        } in
        if is_zero (without io.event event)
        then epoll_del_all fd stored
        else record stored { kernel = (ctl (mods fd (without io.event event)) ep.kernel).0 }
  ]

  abbrev pub run_if : Option Callback → Choice Callback
  run_if none = nothing
  run_if (some cb) = runs cb

  abbrev pub first_of : Option Callback → Option Callback → Choice Callback
  first_of (some cb) w = runs cb
  first_of none (some cb) = runs cb
  first_of none none = removes

  unfoldable pub choose : Events → IoEvent Callback → Choice Callback
  choose events io =
      if events.input
      then run_if io.read_callback
      else if events.output
      then run_if io.write_callback
      else if events.error || events.hangup
      then first_of io.read_callback io.write_callback
      else nothing

  module _ (call : Callback → Epoll Kernel Callback → Outcome (Epoll Kernel Callback)) where
    -- One iteration of `execute_cbs`; `call` runs a callback, which may use the poller itself.
    unfoldable pub execute_cb : ℕ → Events → Epoll Kernel Callback → Outcome (Epoll Kernel Callback)
    execute_cb fd events ep = elim (HashMap.find ℕ_discrete fd ep.event_map) [
      | none ↦ aborted
      | some io ↦ elim (choose events io) [
        | runs cb ↦ call cb ep
        | removes ↦ ok (epoll_del_all fd ep)
        | nothing ↦ ok ep
      ]
    ]

    unfoldable pub execute_cbs :
        List (ℕ × Events) → Epoll Kernel Callback → Outcome (Epoll Kernel Callback)
    execute_cbs [] ep = ok ep
    execute_cbs ((fd, events) ∷ es) ep = do ep ← execute_cb fd events ep; execute_cbs es ep

    -- `poll`, on the answers of `epoll_wait`, none for one that failed: the number of events, none
    -- where the answers are used up.
    unfoldable pub poll :
        List (Option (List (ℕ × Events)))
        → Epoll Kernel Callback
        → Outcome (Epoll Kernel Callback × Option ℕ)
    poll [] ep = ok (ep, none)
    poll (none ∷ answers) ep = poll answers ep
    poll (some es ∷ answers) ep = do ep ← execute_cbs es ep; ok (ep, some (length es))
