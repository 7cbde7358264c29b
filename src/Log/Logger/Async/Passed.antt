-- ===== src/Log/Logger/Async/Passed.antt =====
-- A logger whose flag is not set: what the turns of its writing thread do to the lines.
use high_performance_concurr.Base.{
  ℕ, ◌≡◌, ◌≢◌, refl, sym, ap, ◌∙◌, false, some, List, [], ◌∷◌, ◌++◌, map, append-nil, append_assoc,
  Outcome, ok, ◌>>=◌,
}
use mathlib.Core.List.{map-append}
use high_performance_concurr.Log.Queue.{Queue, Popped, waits, failed}
use high_performance_concurr.Log.Queue.Refine.{Holds}
use high_performance_concurr.Log.Logger.{File, Line, put}
use high_performance_concurr.Log.Logger.Async.Hold.{first_of, pop_first, woken_first}
use high_performance_concurr.Log.Logger.Async.{
  Async, Writer, popping, asleep, holding, writing, ended, writer_tests, popped, pop_turn,
  writer_pops, writer_wakes, writer_writes,
}

-- The line that the writer holds.
abbrev pub in_hand : Writer → List Line
in_hand popping = []
in_hand asleep = []
in_hand (holding line) = line ∷ []
in_hand (writing line) = line ∷ []
in_hand ended = []

-- What was written, in whichever files.
abbrev pub written_lines : Async → List Line
written_lines s = map (λ p. p.1) s.logger.written

-- The queue holds the lines `xs`, a file is open, and the flag is not set.
pub record IsOpen (cap : ℕ) (xs : List Line) (s : Async) : Type 0 where
  pub q : Queue Line
  pub there : s.logger.queue ≡ some q
  pub holds : Holds cap q xs
  pub f : File
  pub file : s.logger.fp ≡ some f
  pub splits : s.logger.split_lines ≢ 0
  pub runs : s.stop ≡ false

-- A run that ends, in which the lines `ys` were written, and the queue got the lines `added`: what was
-- written, what is held and what is queued is what was held, queued and added, in order.
pub record Passed (cap : ℕ) (xs : List Line) (s : Async) (r : Outcome (Async × List Line))
    : Type 0 where
  pub after : Async
  pub added : List Line
  pub ys : List Line
  pub xs' : List Line
  pub result : r ≡ ok (after, added)
  pub is_open : IsOpen cap xs' after
  pub got_lines : written_lines after ≡ written_lines s ++ ys
  pub order : ys ++ in_hand after.writer ++ xs' ≡ (in_hand s.writer ++ xs) ++ added

-- Two runs, one behind the other.
pub joined :
    (a b c d e g h k l : List Line)
    → a ++ e ++ g ≡ k ++ l
    → b ++ c ++ d ≡ (e ++ g) ++ h
    → (a ++ b) ++ c ++ d ≡ k ++ (l ++ h)
joined a b c d e g h k l first second =
    append_assoc (a ++ b) c d
    ∙ append_assoc a b (c ++ d)
    ∙ ap (λ xs. a ++ xs) (sym (append_assoc b c d) ∙ second)
    ∙ sym (append_assoc a (e ++ g) h)
    ∙ ap (λ xs. xs ++ h) (sym (append_assoc a e g) ∙ first)
    ∙ append_assoc k l h

module _ {cap : ℕ} where
  -- A turn that changes nothing.
  pub idle-Passed :
      {xs : List Line} {s : Async} {r : Outcome (Async × List Line)}
      → IsOpen cap xs s
      → r ≡ ok (s, [])
      → Passed cap xs s r
  idle-Passed {xs} {s} o e = record {
    after = s;
    added = [];
    ys = [];
    xs' = xs;
    result = e;
    is_open = o;
    got_lines = sym (append-nil (written_lines s));
    order = sym (append-nil (in_hand s.writer ++ xs));
  }

  -- The writer behind a `pop` that found its first line, or none.
  pub pop_turn-Passed :
      (xs : List Line) {s : Async} {r : Outcome (Queue Line × Popped Line)} (q' : Queue Line)
      (otherwise : Popped Line)
      → IsOpen cap xs s
      → in_hand s.writer ≡ []
      → in_hand (popped otherwise) ≡ []
      → r ≡ ok (q', (first_of otherwise xs).0)
      → Holds cap q' (first_of otherwise xs).1
      → Passed cap xs s (pop_turn s r >>= λ s'. ok (s', []))
  unfolding pop_turn
  pop_turn-Passed [] {s} q' otherwise o free nothing e h = record {
    after = record s { logger = record s.logger { queue = some q' }; writer = popped otherwise };
    added = [];
    ys = [];
    xs' = [];
    result = rw e;
    is_open = record {
      q = q';
      there = refl;
      holds = h;
      f = o.f;
      file = o.file;
      splits = o.splits;
      runs = o.runs;
    };
    got_lines = sym (append-nil (written_lines s));
    order = rw (nothing, free) refl;
  }
  pop_turn-Passed (x ∷ xs) {s} q' otherwise o free nothing e h = record {
    after = record s { logger = record s.logger { queue = some q' }; writer = holding x };
    added = [];
    ys = [];
    xs' = xs;
    result = rw e;
    is_open = record {
      q = q';
      there = refl;
      holds = h;
      f = o.f;
      file = o.file;
      splits = o.splits;
      runs = o.runs;
    };
    got_lines = sym (append-nil (written_lines s));
    order = rw free (sym (append-nil (x ∷ xs)));
  }

  pub pops-Passed :
      {xs : List Line} {s : Async} (w : Writer)
      → s.writer ≡ w
      → IsOpen cap xs s
      → Passed cap xs s (writer_pops w s.logger.queue s >>= λ s'. ok (s', []))
  unfolding writer_pops
  pops-Passed {xs} {s} popping e o =
      let (q', ran, h) = pop_first xs o.holds in
      simp (writer_pops, o.there) (pop_turn-Passed xs q' waits o (ap in_hand e) refl ran h)
  pops-Passed asleep e o = idle-Passed o refl
  pops-Passed (holding line) e o = idle-Passed o refl
  pops-Passed (writing line) e o = idle-Passed o refl
  pops-Passed ended e o = idle-Passed o refl

  pub wakes-Passed :
      {xs : List Line} {s : Async} (w : Writer)
      → s.writer ≡ w
      → IsOpen cap xs s
      → Passed cap xs s (writer_wakes w s.logger.queue s >>= λ s'. ok (s', []))
  unfolding writer_wakes
  wakes-Passed {xs} {s} asleep e o =
      let (q', ran, h) = woken_first xs o.holds in
      simp (writer_wakes, o.there) (pop_turn-Passed xs q' failed o (ap in_hand e) refl ran h)
  wakes-Passed popping e o = idle-Passed o refl
  wakes-Passed (holding line) e o = idle-Passed o refl
  wakes-Passed (writing line) e o = idle-Passed o refl
  wakes-Passed ended e o = idle-Passed o refl

  pub tests-Passed :
      {xs : List Line} {s : Async} (w : Writer)
      → s.writer ≡ w
      → IsOpen cap xs s
      → Passed cap xs s (ok (writer_tests w s, []))
  unfolding writer_tests
  tests-Passed {xs} {s} (holding line) e o = record {
    after = record s { writer = writing line };
    added = [];
    ys = [];
    xs' = xs;
    result = simp o.runs refl;
    is_open = record {
      q = o.q;
      there = o.there;
      holds = o.holds;
      f = o.f;
      file = o.file;
      splits = o.splits;
      runs = o.runs;
    };
    got_lines = sym (append-nil (written_lines s));
    order = rw e (sym (append-nil (line ∷ xs)));
  }
  tests-Passed popping e o = idle-Passed o refl
  tests-Passed asleep e o = idle-Passed o refl
  tests-Passed (writing line) e o = idle-Passed o refl
  tests-Passed ended e o = idle-Passed o refl

  pub writes-Passed :
      {xs : List Line} {s : Async} (w : Writer)
      → s.writer ≡ w
      → IsOpen cap xs s
      → Passed cap xs s (writer_writes w s >>= λ s'. ok (s', []))
  unfolding writer_writes put
  writes-Passed {xs} {s} (writing line) e o = record {
    after = record s {
      logger = record s.logger { written = s.logger.written ++ ((o.f, line) ∷ []) };
      writer = popping;
    };
    added = [];
    ys = line ∷ [];
    xs' = xs;
    result = simp (put, o.file) refl;
    is_open = record {
      q = o.q;
      there = o.there;
      holds = o.holds;
      f = o.f;
      file = o.file;
      splits = o.splits;
      runs = o.runs;
    };
    got_lines = map-append (λ p. p.1) s.logger.written ((o.f, line) ∷ []);
    order = rw e (sym (append-nil (line ∷ xs)));
  }
  writes-Passed popping e o = idle-Passed o refl
  writes-Passed asleep e o = idle-Passed o refl
  writes-Passed (holding line) e o = idle-Passed o refl
  writes-Passed ended e o = idle-Passed o refl
