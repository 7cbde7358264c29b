-- ===== src/Net/Epoll/Interest.antt =====
-- The table of callbacks and the kernel's interest list.
use mathlib.Core.Logic.{ite}
use high_performance_concurr.Base.{
  ℕ, ◌≡◌, sym, ap, ◌∙◌, Bool, true, false, Option, none, some, arith, inl, inr, Bool-cases,
  Option-cases, ℕ_discrete,
}
use high_performance_concurr.Timer.HashMap
use high_performance_concurr.Timer.HashMap.{HashMap}
use high_performance_concurr.Net.Epoll.{
  Events, IoEvent, Epoll, Ctl, adds, mods, dels, union, without, is_zero, epoll_add, epoll_del,
  epoll_del_all, ctl_for, final_events, lower,
}

-- epoll_ctl(2): what a call that succeeds does to the interest list. A removal that fails finds no
-- such descriptor in it.
pub record IsCtl (Kernel : Type 0) (ctl : Ctl → Kernel → Kernel × Bool)
    (interest : ℕ → Kernel → Option Events) : Type 0 where
  pub added :
      (fd j : ℕ) (e : Events) (k : Kernel)
      → (ctl (adds fd e) k).1 ≡ true
      → interest j (ctl (adds fd e) k).0 ≡ ite (ℕ_discrete fd j) (some e) (interest j k)
  pub modified :
      (fd j : ℕ) (e : Events) (k : Kernel)
      → (ctl (mods fd e) k).1 ≡ true
      → interest j (ctl (mods fd e) k).0 ≡ ite (ℕ_discrete fd j) (some e) (interest j k)
  pub removed :
      (fd j : ℕ) (k : Kernel)
      → interest j (ctl (dels fd) k).0 ≡ ite (ℕ_discrete fd j) none (interest j k)

module _ {Kernel Callback : Type 0} (ctl : Ctl → Kernel → Kernel × Bool)
    (interest : ℕ → Kernel → Option Events) (is_ctl : IsCtl Kernel ctl interest) where
  abbrev pub mask : Option (IoEvent Callback) → Option Events
  mask none = none
  mask (some io) = some io.event

  -- The kernel watches the descriptors of the table, each for the events that it has there.
  abbrev pub Agrees : Epoll Kernel Callback → Type 0
  Agrees ep = (j : ℕ) → interest j ep.kernel ≡ mask (HashMap.find ℕ_discrete j ep.event_map)

  ctl_for-interest :
      (fd j : ℕ) (event : Events) (old : Option (IoEvent Callback)) (k : Kernel)
      → (ctl (ctl_for ctl fd event old) k).1 ≡ true
      → interest j (ctl (ctl_for ctl fd event old) k).0
        ≡ ite (ℕ_discrete fd j) (some (final_events ctl event old)) (interest j k)
  ctl_for-interest fd j event none k success = is_ctl.added fd j event k success
  ctl_for-interest fd j event (some io) k success =
      is_ctl.modified fd j (union io.event event) k success

  -- An entry that is put into the table, and its mask.
  mask-emplace :
      (fd j : ℕ) (io : IoEvent Callback) (m : HashMap ℕ (IoEvent Callback))
      → mask (HashMap.find ℕ_discrete j (HashMap.emplace ℕ_discrete fd io m))
        ≡ ite (ℕ_discrete fd j) (some io.event) (mask (HashMap.find ℕ_discrete j m))
  mask-emplace fd j io m = rw (HashMap.find-emplace ℕ_discrete fd j io m) (ground arith)

  mask-erase :
      (fd j : ℕ) (m : HashMap ℕ (IoEvent Callback))
      → mask (HashMap.find ℕ_discrete j (HashMap.erase ℕ_discrete fd m))
        ≡ ite (ℕ_discrete fd j) none (mask (HashMap.find ℕ_discrete j m))
  mask-erase fd j m = rw (HashMap.find-erase ℕ_discrete fd j m) (ground arith)

  -- `epoll_add`, where `epoll_ctl` succeeds, keeps the table and the kernel in agreement.
  pub epoll_add-Agrees :
      (fd : ℕ) (event : Events) (cb : Callback) (ep : Epoll Kernel Callback)
      → (ctl (ctl_for ctl fd event (HashMap.find ℕ_discrete fd ep.event_map)) ep.kernel).1 ≡ true
      → Agrees ep
      → Agrees (epoll_add ctl fd event cb ep)
  unfolding epoll_add
  epoll_add-Agrees fd event cb ep success h j =
      let old : Option (IoEvent Callback) = HashMap.find ℕ_discrete fd ep.event_map in
      let kernel_side = ctl_for-interest fd j event old ep.kernel success in
      kernel_side
      ∙ ap (ite (ℕ_discrete fd j) (some (final_events ctl event old))) (h j)
      ∙ sym (mask-emplace fd j _ ep.event_map)

  -- `epoll_del(int fd)` keeps them in agreement, and the descriptor is in neither.
  pub epoll_del_all-Agrees :
      (fd : ℕ) (ep : Epoll Kernel Callback) → Agrees ep → Agrees (epoll_del_all ctl fd ep)
  unfolding epoll_del_all
  epoll_del_all-Agrees fd ep h j =
      is_ctl.removed fd j ep.kernel
      ∙ ap (ite (ℕ_discrete fd j) none) (h j)
      ∙ sym (mask-erase fd j ep.event_map)

  -- The entry that `epoll_del` stores and, where no event is left, removes.
  stored-removed :
      (fd j : ℕ) (io : IoEvent Callback) (m : HashMap ℕ (IoEvent Callback))
      → mask (
          HashMap.find ℕ_discrete j
            (HashMap.erase ℕ_discrete fd (HashMap.emplace ℕ_discrete fd io m)))
        ≡ ite (ℕ_discrete fd j) none (mask (HashMap.find ℕ_discrete j m))
  stored-removed fd j io m =
      rw (mask-erase fd j (HashMap.emplace ℕ_discrete fd io m), mask-emplace fd j io m)
        (ground arith)

  -- `epoll_del(int fd, int event)` keeps them in agreement, where `epoll_ctl` does not refuse to
  -- change the mask.
  pub epoll_del-Agrees :
      (fd : ℕ) (event : Events) (ep : Epoll Kernel Callback)
      → ((io : IoEvent Callback)
          → HashMap.find ℕ_discrete fd ep.event_map ≡ some io
          → is_zero (without io.event event) ≡ false
          → (ctl (mods fd (without io.event event)) ep.kernel).1 ≡ true)
      → Agrees ep
      → Agrees (epoll_del ctl fd event ep)
  unfolding epoll_del epoll_del_all
  epoll_del-Agrees fd event ep success h j =
      elim (Option-cases (HashMap.find ℕ_discrete fd ep.event_map)) [
        | inl unknown ↦ rw (epoll_del, unknown) (h j)
        | inr (io, known) ↦ elim (Bool-cases (is_zero (without io.event event))) [
          | inl gone ↦
              rw (epoll_del, known, gone)
                (is_ctl.removed fd j ep.kernel
                  ∙ ap (ite (ℕ_discrete fd j) none) (h j)
                  ∙ sym (stored-removed fd j (lower ctl event io) ep.event_map))
          | inr left ↦
              rw (epoll_del, known, left)
                (is_ctl.modified fd j (without io.event event) ep.kernel (success io known left)
                  ∙ ap (ite (ℕ_discrete fd j) (some (without io.event event))) (h j)
                  ∙ sym (mask-emplace fd j (lower ctl event io) ep.event_map))
        ]
      ]
