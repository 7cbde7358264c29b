-- ===== src/Timer/Tick/Settled.antt =====
-- An identifier that is out of the map for good, and the steps of the methods that keep it so.
use high_performance_concurr.Base.{
  ℕ, zero, suc, ◌+◌, ◌^◌, ◌≤◌, ◌<◌, ◌≡◌, ◌≢◌, Option, none, some, List, [], ◌∷◌, arith, All,
  All-append, ◌==◌, ℕ_discrete, get_elem?, refl,
}
use high_performance_concurr.Threadpool.{remove_at}
use high_performance_concurr.Timer.HashMap
use high_performance_concurr.Timer.Schedule.{Node, running, cancel}
use high_performance_concurr.Timer.Schedule.Nodes.{one_if, posts_of}
use high_performance_concurr.Timer.Schedule.Cancel.{IsGone, cancel_other-IsGone, next_id-cancel}
use high_performance_concurr.Timer.Tick.{
  Place, testing, locking, dozing, asleep, posting, ended, TickThread, woken, draw, enter, queued,
  add, add_entered,
}

module _ {Task : Type 0} where
  -- How many posts of an identifier the thread is about to make: it has let the lock go, with the
  -- callback in hand.
  abbrev pub pending : ℕ → Place Task → ℕ
  pending id testing = 0
  pending id locking = 0
  pending id (dozing u) = 0
  pending id (asleep u) = 0
  pending id (posting j f) = one_if (j == id)
  pending id ended = 0

  -- The identifier is out of the map, and no call is still to put it there.
  pub record Settled (id : ℕ) (t : TickThread Task) : Type 0 where
    pub gone : IsGone id t.timer
    pub undrawn : All (λ s. s.id ≢ id) t.drawn

  -- From `t` a step has posted `out`, and may still post no more of the identifier than `t` might
  -- less that.
  pub record Quiet (id : ℕ) (t t' : TickThread Task) (out : List (ℕ × Task)) : Type 0 where
    pub settled : Settled id t'
    pub fewer : posts_of id out + pending id t'.place ≤ pending id t.place
    pub ids : t'.timer.next_id ≤ t.timer.next_id + 1

  pub All-get_elem? :
      (id i : ℕ) (q : List (Node Task)) (s : Node Task)
      → All (λ x. x.id ≢ id) q
      → get_elem? q i ≡ some s
      → s.id ≢ id
  All-get_elem? id i [] s a e = cc
  All-get_elem? id zero (x ∷ q) s a e = λ same. ground (arith, a.0)
  All-get_elem? id (suc i) (x ∷ q) s a e = All-get_elem? id i q s a.1 e

  pub All-remove_at :
      (id i : ℕ) (q : List (Node Task))
      → All (λ x. x.id ≢ id) q
      → All (λ x. x.id ≢ id) (remove_at q i)
  All-remove_at id i [] a = tt
  All-remove_at id zero (x ∷ q) a = a.1
  All-remove_at id (suc i) (x ∷ q) a = (a.0, All-remove_at id i q a.1)

  -- A step that neither touches the map and the identifiers, nor makes the thread take up a callback.
  pub kept-Quiet :
      (id : ℕ) (t t' : TickThread Task)
      → t'.timer.states ≡ t.timer.states
      → t'.timer.next_id ≡ t.timer.next_id
      → t'.drawn ≡ t.drawn
      → pending id t'.place ≤ pending id t.place
      → Settled id t
      → Quiet id t t' []
  kept-Quiet id t t' states ids drawn fewer s = record {
    settled = record {
      gone = record { absent = rw states s.gone.absent; old = rw ids s.gone.old };
      undrawn = rw drawn s.undrawn;
    };
    fewer = omega (arith, fewer);
    ids = omega (arith, ids);
  }

  pub same-Quiet : (id : ℕ) (t : TickThread Task) → Settled id t → Quiet id t t []
  same-Quiet id t s = kept-Quiet id t t refl refl refl (omega arith) s

  pub draw-Quiet :
      (id : ℕ) (n : Node Task) (t : TickThread Task)
      → t.timer.next_id + 1 < 2 ^ 32
      → Settled id t
      → Quiet id t (draw n t) []
  unfolding draw
  draw-Quiet id n t small s = record {
    settled = record {
      gone = record { absent = s.gone.absent; old = omega (arith, s.gone.old) };
      undrawn =
          All-append (λ x. x.id ≢ id) t.drawn (record n { id = t.timer.next_id } ∷ []) s.undrawn
            (λ same. omega (arith, s.gone.old), tt);
    };
    fewer = omega arith;
    ids = omega arith;
  }

  pub enter-Quiet :
      (id i : ℕ) (o : Option (Node Task)) (t : TickThread Task)
      → get_elem? t.drawn i ≡ o
      → Settled id t
      → Quiet id t (enter i o t) []
  unfolding enter
  enter-Quiet id i none t e s = same-Quiet id t s
  enter-Quiet id i (some n) t e s =
      let other : n.id ≢ id = All-get_elem? id i t.drawn n s.undrawn e in
      record {
        settled = record {
          gone = record {
            absent = ground (
              arith,
              HashMap.find-emplace ℕ_discrete n.id id running t.timer.states,
              s.gone.absent,
            );
            old = s.gone.old;
          };
          undrawn = All-remove_at id i t.drawn s.undrawn;
        };
        fewer = omega arith;
        ids = omega arith;
      }

  pub add-Quiet :
      (id : ℕ) (p : Place Task) (i : ℕ) (n : Node Task) (t : TickThread Task)
      → t.place ≡ p
      → Settled id t
      → Quiet id t (add p i n t) []
  unfolding add woken
  add-Quiet id (dozing u) i n t e s = same-Quiet id t s
  add-Quiet id testing i n t e s = kept-Quiet id t (queued i n t) refl refl refl (omega arith) s
  add-Quiet id locking i n t e s = kept-Quiet id t (queued i n t) refl refl refl (omega arith) s
  add-Quiet id (asleep u) i n t e s =
      kept-Quiet id t (record (queued i n t) { place = testing }) refl refl refl (omega arith) s
  add-Quiet id (posting j f) i n t e s =
      kept-Quiet id t (queued i n t) refl refl refl (omega arith) s
  add-Quiet id ended i n t e s = kept-Quiet id t (queued i n t) refl refl refl (omega arith) s

  pub add_entered-Quiet :
      (id i : ℕ) (o : Option (Node Task)) (t : TickThread Task)
      → Settled id t
      → Quiet id t (add_entered i o t) []
  unfolding add_entered
  add_entered-Quiet id i none t s = same-Quiet id t s
  add_entered-Quiet id i (some n) t s = add-Quiet id t.place i n t refl s

  pub cancel-Quiet :
      (id j : ℕ) (t : TickThread Task)
      → Settled id t
      → Quiet id t (record t { timer = cancel j t.timer }) []
  cancel-Quiet id j t s = record {
    settled = record { gone = cancel_other-IsGone j id t.timer s.gone; undrawn = s.undrawn };
    fewer = omega arith;
    ids = omega (arith, next_id-cancel j t.timer);
  }
