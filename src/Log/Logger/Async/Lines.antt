-- ===== src/Log/Logger/Async/Lines.antt =====
-- Every line that the queue takes is written, in order, until the flag is set, through any files.
use high_performance_concurr.Base.{
  ℕ, ◌≡◌, ◌≢◌, refl, sym, ap, ◌∙◌, Bool, true, some, List, [], ◌∷◌, ◌++◌, map, append-nil,
  append_assoc, inl, inr, ok, ◌>>=◌, All,
}
use high_performance_concurr.Log.Logger.{File, Line, Date, hand_over}
use high_performance_concurr.Log.Logger.Async.Files.{rotate-Kept}
use high_performance_concurr.Log.Logger.Async.Hold.{offer_cases}
use high_performance_concurr.Log.Logger.Async.{
  Async, Turn, rotates, offers, pops, wakes, tests, writes, stops, rotate_turn, turn, run,
}
use high_performance_concurr.Log.Logger.Async.Passed.{
  in_hand, written_lines, IsOpen, Passed, joined, idle-Passed, pops-Passed, wakes-Passed,
  tests-Passed, writes-Passed,
}

module _ (opens : File → Bool) (all_open : (f : File) → opens f ≡ true) {cap : ℕ} where
  offers-Passed :
      {xs : List Line} {s : Async} (line : Line)
      → IsOpen cap xs s
      → Passed cap xs s (turn opens (offers line) s)
  unfolding turn hand_over
  offers-Passed {xs} {s} line o = elim (offer_cases line o.holds) [
    | inl (q', e, h) ↦ record {
      after = record s { logger = record s.logger { queue = some q' } };
      added = [];
      ys = [];
      xs' = xs;
      result = rw (turn, hand_over, o.there, e);
      is_open = record {
        q = q';
        there = refl;
        holds = h;
        f = o.f;
        file = o.file;
        splits = o.splits;
        runs = o.runs;
      };
      got_lines = sym (append-nil (written_lines s));
      order = sym (append-nil (in_hand s.writer ++ xs));
    }
    | inr (q', e, h) ↦ record {
      after = record s { logger = record s.logger { queue = some q' } };
      added = line ∷ [];
      ys = [];
      xs' = xs ++ (line ∷ []);
      result = rw (turn, hand_over, o.there, e);
      is_open = record {
        q = q';
        there = refl;
        holds = h;
        f = o.f;
        file = o.file;
        splits = o.splits;
        runs = o.runs;
      };
      got_lines = sym (append-nil (written_lines s));
      order = sym (append_assoc (in_hand s.writer) xs (line ∷ []));
    }
  ]

  rotates-Passed :
      {xs : List Line} {s : Async} (date : Date)
      → IsOpen cap xs s
      → Passed cap xs s (rotate_turn opens date s >>= λ s'. ok (s', []))
  unfolding rotate_turn
  rotates-Passed {xs} {s} date o =
      let (l', ran, t) = rotate-Kept opens all_open date s.logger o.f o.splits o.file in
      record {
        after = record s { logger = l' };
        added = [];
        ys = [];
        xs' = xs;
        result = rw (ran, ◌>>=◌);
        is_open = record {
          q = o.q;
          there = t.queue_same ∙ o.there;
          holds = o.holds;
          f = t.file;
          file = t.open_file;
          splits = λ e. o.splits (sym t.split_same ∙ e);
          runs = o.runs;
        };
        got_lines = ap (map (λ p. p.1)) t.written_same ∙ sym (append-nil (written_lines s));
        order = sym (append-nil (in_hand s.writer ++ xs));
      }

  turn-Passed :
      {xs : List Line} {s : Async} (t : Turn)
      → t ≢ stops
      → IsOpen cap xs s
      → Passed cap xs s (turn opens t s)
  unfolding turn
  turn-Passed (rotates date) going o = rotates-Passed date o
  turn-Passed (offers line) going o = offers-Passed line o
  turn-Passed {s = s} pops going o = pops-Passed s.writer refl o
  turn-Passed {s = s} wakes going o = wakes-Passed s.writer refl o
  turn-Passed {s = s} tests going o = tests-Passed s.writer refl o
  turn-Passed {s = s} writes going o = writes-Passed s.writer refl o
  turn-Passed stops going o = absurd (going refl)

  -- Any turns of the threads that log and of the writer, in any order, where every file opens, from a
  -- queue that holds `xs` and while the destructor has not set the flag: no turn faults, however often
  -- the file is turned over, and the lines that are written, to whichever files are open then, with the
  -- one that the writer holds and those in the queue behind them, are the one that it held, `xs`, and
  -- the lines that the queue took, in this order. No line is lost, doubled or overtaken.
  pub lines_in_order :
      (ts : List Turn) (xs : List Line) (s : Async)
      → All (λ t. t ≢ stops) ts
      → IsOpen cap xs s
      → Passed cap xs s (run opens ts s)
  unfolding run
  lines_in_order [] xs s going o = idle-Passed o refl
  lines_in_order (t ∷ ts) xs s going o =
      let p = turn-Passed t going.0 o in
      let r = lines_in_order ts p.xs' p.after going.1 p.is_open in
      record {
        after = r.after;
        added = p.added ++ r.added;
        ys = p.ys ++ r.ys;
        xs' = r.xs';
        result = rw (p.result, ◌>>=◌, r.result, ◌>>=◌);
        is_open = r.is_open;
        got_lines =
            r.got_lines
            ∙ ap (λ ws. ws ++ r.ys) p.got_lines
            ∙ append_assoc (written_lines s) p.ys r.ys;
        order =
            joined p.ys r.ys (in_hand r.after.writer) r.xs' (in_hand p.after.writer) p.xs' r.added
              (in_hand s.writer ++ xs) p.added p.order r.order;
      }
