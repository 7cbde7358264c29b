-- ===== src/Log/Logger/Async/Stop.antt =====
-- What becomes of the lines once the destructor has set the flag.
use high_performance_concurr.Base.{
  ℕ, ◌≡◌, refl, sym, ap, ◌∙◌, map, Bool, true, some, List, [], ◌∷◌, ◌++◌, inl, inr, ok, ◌>>=◌,
}
use high_performance_concurr.Log.Logger.{File, Line, Date, hand_over}
use high_performance_concurr.Log.Logger.Async.Files.{rotate-Kept}
use high_performance_concurr.Log.Logger.Async.Hold.{offer_cases}
use high_performance_concurr.Log.Logger.Async.{
  Async, Turn, rotates, offers, pops, wakes, tests, writes, stops, rotate_turn, turn, run,
}
use high_performance_concurr.Log.Logger.Async.Silent.{
  passed_test, IsStopped, Silent, idle-Silent, pops-Silent, wakes-Silent, tests-Silent,
  writes-Silent,
}

module _ (opens : File → Bool) (all_open : (f : File) → opens f ≡ true) {cap : ℕ} where
  offers-Silent :
      {xs : List Line} {s : Async} (line : Line)
      → IsStopped cap xs s
      → Silent cap s (turn opens (offers line) s)
  unfolding turn hand_over
  offers-Silent {xs} {s} line o = elim (offer_cases line o.holds) [
    | inl (q', e, h) ↦ record {
      after = record s { logger = record s.logger { queue = some q' } };
      added = [];
      xs' = xs;
      result = rw (turn, hand_over, o.there, e);
      is_stopped = record {
        q = q';
        there = refl;
        holds = h;
        f = o.f;
        file = o.file;
        splits = o.splits;
        stopped = o.stopped;
      };
      last_line = refl;
    }
    | inr (q', e, h) ↦ record {
      after = record s { logger = record s.logger { queue = some q' } };
      added = line ∷ [];
      xs' = xs ++ (line ∷ []);
      result = rw (turn, hand_over, o.there, e);
      is_stopped = record {
        q = q';
        there = refl;
        holds = h;
        f = o.f;
        file = o.file;
        splits = o.splits;
        stopped = o.stopped;
      };
      last_line = refl;
    }
  ]

  rotates-Silent :
      {xs : List Line} {s : Async} (date : Date)
      → IsStopped cap xs s
      → Silent cap s (rotate_turn opens date s >>= λ s'. ok (s', []))
  unfolding rotate_turn
  rotates-Silent {xs} {s} date o =
      let (l', ran, t) = rotate-Kept opens all_open date s.logger o.f o.splits o.file in
      record {
        after = record s { logger = l' };
        added = [];
        xs' = xs;
        result = rw (ran, ◌>>=◌);
        is_stopped = record {
          q = o.q;
          there = t.queue_same ∙ o.there;
          holds = o.holds;
          f = t.file;
          file = t.open_file;
          splits = λ e. o.splits (sym t.split_same ∙ e);
          stopped = o.stopped;
        };
        last_line = ap (λ ws. map (λ p. p.1) ws ++ passed_test s.writer) t.written_same;
      }

  turn-Silent :
      {xs : List Line} {s : Async} (t : Turn) → IsStopped cap xs s → Silent cap s (turn opens t s)
  unfolding turn
  turn-Silent (rotates date) o = rotates-Silent date o
  turn-Silent (offers line) o = offers-Silent line o
  turn-Silent {s = s} pops o = pops-Silent s.writer refl o
  turn-Silent {s = s} wakes o = wakes-Silent s.writer refl o
  turn-Silent {s = s} tests o = tests-Silent s.writer refl o
  turn-Silent {s = s} writes o = writes-Silent s.writer refl o
  turn-Silent {xs} {s} stops o = record {
    after = record s { stop = true };
    added = [];
    xs' = xs;
    result = refl;
    is_stopped = record {
      q = o.q;
      there = o.there;
      holds = o.holds;
      f = o.f;
      file = o.file;
      splits = o.splits;
      stopped = refl;
    };
    last_line = refl;
  }

  -- Once the destructor has set the flag, no turns, in any order, where every file opens, write a
  -- line but the one with which the writer had passed its test of the flag: that one is written, if the
  -- writer gets its turn, or is still held. One that it has popped and not tested for, those that are
  -- in the queue, and all that the queue still takes, are lost.
  pub lost_at_stop :
      (ts : List Turn) (xs : List Line) (s : Async)
      → IsStopped cap xs s
      → Silent cap s (run opens ts s)
  unfolding run
  lost_at_stop [] xs s o = idle-Silent o refl
  lost_at_stop (t ∷ ts) xs s o =
      let p = turn-Silent t o in
      let r = lost_at_stop ts p.xs' p.after p.is_stopped in
      record {
        after = r.after;
        added = p.added ++ r.added;
        xs' = r.xs';
        result = rw (p.result, ◌>>=◌, r.result, ◌>>=◌);
        is_stopped = r.is_stopped;
        last_line = r.last_line ∙ p.last_line;
      }
