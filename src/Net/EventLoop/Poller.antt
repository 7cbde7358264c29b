-- ===== src/Net/EventLoop/Poller.antt =====
-- net/event_loop.h, net/event_loop.cpp: the poller of `EventLoop`, from its constructor on.
use high_performance_concurr.Base.{
  ℕ, ◌≡◌, refl, Bool, true, false, Option, none, some, List, [], ◌∷◌, Outcome, ok, aborted, ◌>>=◌,
}
use high_performance_concurr.Timer.HashMap
use high_performance_concurr.Net.Epoll
use high_performance_concurr.Net.Epoll.{
  Events, Epoll, Ctl, adds, epoll_add, epoll_del, epoll_del_all,
}
use high_performance_concurr.Net.Epoll.Interest.{IsCtl}
use high_performance_concurr.Net.Epoll.History.{
  Call, watches, run_calls, AllGranted, IsTidy, table_is_watched,
}

abbrev pub epollin : Events
epollin = record { input = true; output = false; error = false; hangup = false }

module _ {Kernel Callback : Type 0} (ctl : Ctl → Kernel → Kernel × Bool) where
  -- The constructor: `created` and `evfd` are what `epoll_create1` and `eventfd` answer, and `evfd_read`
  -- the callback that reads the event descriptor.
  unfoldable pub make_loop :
      Option Kernel → Option ℕ → Callback → Outcome (Epoll Kernel Callback × ℕ)
  unfolding Epoll.make
  make_loop created none evfd_read = aborted
  make_loop created (some evfd) evfd_read = do
    ep ← Epoll.make created
    ok (epoll_add ctl evfd epollin evfd_read ep, evfd)

module _ {Kernel Callback : Type 0} (ctl : Ctl → Kernel → Kernel × Bool)
    (interest : ℕ → Kernel → Option Events) (is_ctl : IsCtl Kernel ctl interest) where
  make-IsTidy :
      (k : Kernel)
      → ((j : ℕ) → interest j k ≡ none)
      → IsTidy {Callback = Callback} ctl interest is_ctl
          (record { kernel = k; listen_fds = []; event_map = [] })
  unfolding HashMap.find
  make-IsTidy k nothing = record { agrees = nothing; listed = λ j. refl }

  -- From the constructor of a loop on, over any calls of `add_to_poller` and of the two
  -- `del_from_poller` of which the kernel refuses none, where its new interest list is empty: the
  -- constructor succeeds, the kernel watches exactly the descriptors of the loop's table, each for the
  -- events that it has there, and `ep_listen_fds` has each of them once, and no other.
  pub make_loop-IsTidy :
      (k : Kernel) (evfd : ℕ) (evfd_read : Callback) (cs : List (Call Callback))
      → ((j : ℕ) → interest j k ≡ none)
      → AllGranted ctl interest is_ctl
          (watches evfd epollin evfd_read ∷ cs)
          (record { kernel = k; listen_fds = []; event_map = [] })
      → (ep : Epoll Kernel Callback) × (make_loop ctl (some k) (some evfd) evfd_read
          ≡ ok (ep, evfd))
        × IsTidy ctl interest is_ctl (run_calls ctl interest is_ctl cs ep)
  unfolding make_loop Epoll.make
  make_loop-IsTidy k evfd evfd_read cs nothing granted = (
    epoll_add ctl evfd epollin evfd_read (record { kernel = k; listen_fds = []; event_map = [] }),
    refl,
    table_is_watched ctl interest is_ctl (watches evfd epollin evfd_read ∷ cs)
        (record { kernel = k; listen_fds = []; event_map = [] }) granted (make-IsTidy k nothing),
  )
