-- ===== src/Net/Epoll/History.antt =====
-- A poller over any calls of its methods.
use mathlib.Core.Logic.{ite}
use high_performance_concurr.Base.{
  ℕ, suc, ◌≤◌, ◌≡◌, refl, sym, ap, ◌∙◌, Bool, true, false, Option, none, some, List, [], ◌∷◌, arith,
  inl, inr, Bool-cases, Option-cases, ℕ_discrete,
}
use high_performance_concurr.Timer.HashMap
use high_performance_concurr.Timer.HashMap.{HashMap}
use high_performance_concurr.Net.Epoll.{
  Events, IoEvent, Epoll, Ctl, mods, is_zero, without, insert_fd, erase_fd, ctl_for, epoll_add,
  epoll_del, epoll_del_all, lower,
}
use high_performance_concurr.Net.Epoll.Interest.{
  IsCtl, Agrees, epoll_add-Agrees, epoll_del-Agrees, epoll_del_all-Agrees,
}

-- A call of `epoll_add` or of one of the two `epoll_del`.
pub data Call (Callback : Type 0) : Type 0 where
  watches : ℕ → Events → Callback → Call Callback
  lowers : ℕ → Events → Call Callback
  forgets : ℕ → Call Callback

-- How often a descriptor is in a list.
abbrev pub times : ℕ → List ℕ → ℕ
times j [] = 0
times j (x ∷ xs) = ite (ℕ_discrete x j) (suc (times j xs)) (times j xs)

abbrev pub one_if : {A : Type 0} → Option A → ℕ
one_if none = 0
one_if (some a) = 1

times-insert :
    (fd j : ℕ) (xs : List ℕ)
    → times j xs ≤ 1
    → times j (insert_fd fd xs) ≡ ite (ℕ_discrete fd j) 1 (times j xs)
times-insert fd j [] one = ground arith
times-insert fd j (x ∷ xs) one = ground (arith, times-insert fd j xs)

times-erase :
    (fd j : ℕ) (xs : List ℕ)
    → times j xs ≤ 1
    → times j (erase_fd fd xs) ≡ ite (ℕ_discrete fd j) 0 (times j xs)
times-erase fd j [] one = ground arith
times-erase fd j (x ∷ xs) one = ground (arith, times-erase fd j xs)

at_most_one : {A : Type 0} (o : Option A) → one_if o ≤ 1
at_most_one none = omega arith
at_most_one (some a) = omega arith

one_if-emplace :
    {A : Type 0} (fd j : ℕ) (a : A) (m : HashMap ℕ A)
    → one_if (HashMap.find ℕ_discrete j (HashMap.emplace ℕ_discrete fd a m))
      ≡ ite (ℕ_discrete fd j) 1 (one_if (HashMap.find ℕ_discrete j m))
one_if-emplace fd j a m = rw (HashMap.find-emplace ℕ_discrete fd j a m) (ground arith)

one_if-erase :
    {A : Type 0} (fd j : ℕ) (m : HashMap ℕ A)
    → one_if (HashMap.find ℕ_discrete j (HashMap.erase ℕ_discrete fd m))
      ≡ ite (ℕ_discrete fd j) 0 (one_if (HashMap.find ℕ_discrete j m))
one_if-erase fd j m = rw (HashMap.find-erase ℕ_discrete fd j m) (ground arith)

-- Another value for a key of the map.
one_if-again :
    {A : Type 0} (fd j : ℕ) (a b : A) (m : HashMap ℕ A)
    → HashMap.find ℕ_discrete fd m ≡ some b
    → one_if (HashMap.find ℕ_discrete j (HashMap.emplace ℕ_discrete fd a m))
      ≡ one_if (HashMap.find ℕ_discrete j m)
one_if-again fd j a b m known = rw one_if-emplace (again (ℕ_discrete fd j))
  where
    again :
        (d : Dec (fd ≡ j))
        → ite d 1 (one_if (HashMap.find ℕ_discrete j m)) ≡ one_if (HashMap.find ℕ_discrete j m)
    again (yes e) = ap one_if (sym known ∙ ap (λ k. HashMap.find ℕ_discrete k m) e)
    again (no ne) = refl

one_if-removed :
    {A : Type 0} (fd j : ℕ) (a b : A) (m : HashMap ℕ A)
    → HashMap.find ℕ_discrete fd m ≡ some b
    → one_if (
        HashMap.find ℕ_discrete j (HashMap.erase ℕ_discrete fd (HashMap.emplace ℕ_discrete fd a m)))
      ≡ ite (ℕ_discrete fd j) 0 (one_if (HashMap.find ℕ_discrete j m))
one_if-removed fd j a b m known =
    one_if-erase fd j (HashMap.emplace ℕ_discrete fd a m)
    ∙ ap (ite (ℕ_discrete fd j) 0) (one_if-again fd j a b m known)

module _ {Kernel Callback : Type 0} (ctl : Ctl → Kernel → Kernel × Bool)
    (interest : ℕ → Kernel → Option Events) (is_ctl : IsCtl Kernel ctl interest) where
  abbrev pub step : Call Callback → Epoll Kernel Callback → Epoll Kernel Callback
  step (watches fd event cb) ep = epoll_add ctl fd event cb ep
  step (lowers fd event) ep = epoll_del ctl fd event ep
  step (forgets fd) ep = epoll_del_all ctl fd ep

  abbrev pub run_calls : List (Call Callback) → Epoll Kernel Callback → Epoll Kernel Callback
  run_calls [] ep = ep
  run_calls (c ∷ cs) ep = run_calls cs (step c ep)

  -- The kernel does not refuse to watch a descriptor, or to change its mask.
  abbrev pub Granted : Call Callback → Epoll Kernel Callback → Type 0
  Granted (watches fd event cb) ep =
      (ctl (ctl_for ctl fd event (HashMap.find ℕ_discrete fd ep.event_map)) ep.kernel).1 ≡ true
  Granted (lowers fd event) ep =
      (io : IoEvent Callback)
      → HashMap.find ℕ_discrete fd ep.event_map ≡ some io
      → is_zero (without io.event event) ≡ false
      → (ctl (mods fd (without io.event event)) ep.kernel).1 ≡ true
  Granted (forgets fd) ep = Unit {0}

  abbrev pub AllGranted : List (Call Callback) → Epoll Kernel Callback → Type 0
  AllGranted [] ep = Unit {0}
  AllGranted (c ∷ cs) ep = Granted c ep × AllGranted cs (step c ep)

  -- `ep_listen_fds` is the set of the table's descriptors.
  abbrev pub Listed : Epoll Kernel Callback → Type 0
  Listed ep = (j : ℕ) → times j ep.listen_fds ≡ one_if (HashMap.find ℕ_discrete j ep.event_map)

  bound : (j : ℕ) (ep : Epoll Kernel Callback) → Listed ep → times j ep.listen_fds ≤ 1
  bound j ep h = omega (arith, h j, at_most_one (HashMap.find ℕ_discrete j ep.event_map))

  epoll_add-Listed :
      (fd : ℕ) (event : Events) (cb : Callback) (ep : Epoll Kernel Callback)
      → Granted (watches fd event cb) ep
      → Listed ep
      → Listed (epoll_add ctl fd event cb ep)
  unfolding epoll_add
  epoll_add-Listed fd event cb ep granted h j = simp granted (
      times-insert fd j ep.listen_fds (bound j ep h)
      ∙ ap (ite (ℕ_discrete fd j) 1) (h j)
      ∙ sym (one_if-emplace fd j _ ep.event_map))

  epoll_del_all-Listed :
      (fd : ℕ) (ep : Epoll Kernel Callback) → Listed ep → Listed (epoll_del_all ctl fd ep)
  unfolding epoll_del_all
  epoll_del_all-Listed fd ep h j =
      times-erase fd j ep.listen_fds (bound j ep h)
      ∙ ap (ite (ℕ_discrete fd j) 0) (h j)
      ∙ sym (one_if-erase fd j ep.event_map)

  epoll_del-Listed :
      (fd : ℕ) (event : Events) (ep : Epoll Kernel Callback)
      → Listed ep
      → Listed (epoll_del ctl fd event ep)
  unfolding epoll_del epoll_del_all
  epoll_del-Listed fd event ep h j = elim (Option-cases (HashMap.find ℕ_discrete fd ep.event_map)) [
    | inl unknown ↦ rw (epoll_del, unknown) (h j)
    | inr (io, known) ↦ elim (Bool-cases (is_zero (without io.event event))) [
      | inl gone ↦
          rw (epoll_del, known, gone)
            (times-erase fd j ep.listen_fds (bound j ep h)
              ∙ ap (ite (ℕ_discrete fd j) 0) (h j)
              ∙ sym (one_if-removed fd j (lower ctl event io) io ep.event_map known))
      | inr left ↦
          rw (epoll_del, known, left)
            (h j ∙ sym (one_if-again fd j (lower ctl event io) io ep.event_map known))
    ]
  ]

  -- A poller whose table, list of descriptors and interest list of the kernel fit together.
  pub record IsTidy (ep : Epoll Kernel Callback) : Type 0 where
    pub agrees : Agrees ctl interest is_ctl ep
    pub listed : Listed ep

  step-IsTidy :
      (c : Call Callback) (ep : Epoll Kernel Callback)
      → Granted c ep
      → IsTidy ep
      → IsTidy (step c ep)
  step-IsTidy (watches fd event cb) ep granted h = record {
    agrees = epoll_add-Agrees ctl interest is_ctl fd event cb ep granted h.agrees;
    listed = epoll_add-Listed fd event cb ep granted h.listed;
  }
  step-IsTidy (lowers fd event) ep granted h = record {
    agrees = epoll_del-Agrees ctl interest is_ctl fd event ep granted h.agrees;
    listed = epoll_del-Listed fd event ep h.listed;
  }
  step-IsTidy (forgets fd) ep granted h = record {
    agrees = epoll_del_all-Agrees ctl interest is_ctl fd ep h.agrees;
    listed = epoll_del_all-Listed fd ep h.listed;
  }

  -- Over any calls of `epoll_add` and of the two `epoll_del` of which the kernel refuses none, a
  -- poller keeps its table and the kernel's interest list in agreement: the kernel watches exactly
  -- the descriptors of the table, each for the events that it has there. And each of them is in
  -- `ep_listen_fds` once, and no other.
  pub table_is_watched :
      (cs : List (Call Callback)) (ep : Epoll Kernel Callback)
      → AllGranted cs ep
      → IsTidy ep
      → IsTidy (run_calls cs ep)
  table_is_watched [] ep granted h = h
  table_is_watched (c ∷ cs) ep (granted, rest) h =
      table_is_watched cs (step c ep) rest (step-IsTidy c ep granted h)
