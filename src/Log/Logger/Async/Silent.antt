-- ===== src/Log/Logger/Async/Silent.antt =====
-- A logger whose flag is set: what the turns of its writing thread do to the lines.
use high_performance_concurr.Base.{
  ℕ, ◌≡◌, ◌≢◌, refl, sym, ap, ◌∙◌, append-nil, true, some, List, [], ◌∷◌, ◌++◌, Outcome, ok, ◌>>=◌,
}
use high_performance_concurr.Log.Queue.{Queue, Popped, waits, failed}
use high_performance_concurr.Log.Queue.Refine.{Holds}
use high_performance_concurr.Log.Logger.{File, Line, put}
use high_performance_concurr.Log.Logger.Async.Passed.{written_lines}
use mathlib.Core.List.{map-append}
use high_performance_concurr.Log.Logger.Async.Hold.{first_of, pop_first, woken_first}
use high_performance_concurr.Log.Logger.Async.{
  Async, Writer, popping, asleep, holding, writing, ended, writer_tests, popped, pop_turn,
  writer_pops, writer_wakes, writer_writes,
}

-- The line that the writer is sure to write: it has tested the flag already.
abbrev pub passed_test : Writer → List Line
passed_test popping = []
passed_test asleep = []
passed_test (holding line) = []
passed_test (writing line) = line ∷ []
passed_test ended = []

-- The queue holds the lines `xs`, a file is open, and the flag is set.
pub record IsStopped (cap : ℕ) (xs : List Line) (s : Async) : Type 0 where
  pub q : Queue Line
  pub there : s.logger.queue ≡ some q
  pub holds : Holds cap q xs
  pub f : File
  pub file : s.logger.fp ≡ some f
  pub splits : s.logger.split_lines ≢ 0
  pub stopped : s.stop ≡ true

-- A run that ends, and in which only the line that had passed the test can be written.
pub record Silent (cap : ℕ) (s : Async) (r : Outcome (Async × List Line)) : Type 0 where
  pub after : Async
  pub added : List Line
  pub xs' : List Line
  pub result : r ≡ ok (after, added)
  pub is_stopped : IsStopped cap xs' after
  pub last_line :
      written_lines after ++ passed_test after.writer ≡ written_lines s ++ passed_test s.writer

passed-first :
    (xs : List Line) (otherwise : Popped Line)
    → passed_test (popped otherwise) ≡ []
    → passed_test (popped (first_of otherwise xs).0) ≡ []
passed-first [] otherwise nothing = nothing
passed-first (x ∷ xs) otherwise nothing = refl

module _ {cap : ℕ} where
  pub idle-Silent :
      {xs : List Line} {s : Async} {r : Outcome (Async × List Line)}
      → IsStopped cap xs s
      → r ≡ ok (s, [])
      → Silent cap s r
  idle-Silent {xs} {s} o e = record {
    after = s;
    added = [];
    xs' = xs;
    result = e;
    is_stopped = o;
    last_line = refl;
  }

  pub pop_turn-Silent :
      {xs : List Line} {s : Async} {r : Outcome (Queue Line × Popped Line)} (q' : Queue Line)
      (otherwise : Popped Line)
      → IsStopped cap xs s
      → passed_test s.writer ≡ []
      → passed_test (popped otherwise) ≡ []
      → r ≡ ok (q', (first_of otherwise xs).0)
      → Holds cap q' (first_of otherwise xs).1
      → Silent cap s (pop_turn s r >>= λ s'. ok (s', []))
  unfolding pop_turn
  pop_turn-Silent {xs} {s} q' otherwise o free nothing e h = record {
    after = record s {
      logger = record s.logger { queue = some q' };
      writer = popped (first_of otherwise xs).0;
    };
    added = [];
    xs' = (first_of otherwise xs).1;
    result = rw e;
    is_stopped = record {
      q = q';
      there = refl;
      holds = h;
      f = o.f;
      file = o.file;
      splits = o.splits;
      stopped = o.stopped;
    };
    last_line = ap (λ ls. written_lines s ++ ls) (passed-first xs otherwise nothing ∙ sym free);
  }

  pub pops-Silent :
      {xs : List Line} {s : Async} (w : Writer)
      → s.writer ≡ w
      → IsStopped cap xs s
      → Silent cap s (writer_pops w s.logger.queue s >>= λ s'. ok (s', []))
  unfolding writer_pops
  pops-Silent {xs} {s} popping e o =
      let (q', ran, h) = pop_first xs o.holds in
      simp (writer_pops, o.there) (pop_turn-Silent q' waits o (ap passed_test e) refl ran h)
  pops-Silent asleep e o = idle-Silent o refl
  pops-Silent (holding line) e o = idle-Silent o refl
  pops-Silent (writing line) e o = idle-Silent o refl
  pops-Silent ended e o = idle-Silent o refl

  pub wakes-Silent :
      {xs : List Line} {s : Async} (w : Writer)
      → s.writer ≡ w
      → IsStopped cap xs s
      → Silent cap s (writer_wakes w s.logger.queue s >>= λ s'. ok (s', []))
  unfolding writer_wakes
  wakes-Silent {xs} {s} asleep e o =
      let (q', ran, h) = woken_first xs o.holds in
      simp (writer_wakes, o.there) (pop_turn-Silent q' failed o (ap passed_test e) refl ran h)
  wakes-Silent popping e o = idle-Silent o refl
  wakes-Silent (holding line) e o = idle-Silent o refl
  wakes-Silent (writing line) e o = idle-Silent o refl
  wakes-Silent ended e o = idle-Silent o refl

  pub tests-Silent :
      {xs : List Line} {s : Async} (w : Writer)
      → s.writer ≡ w
      → IsStopped cap xs s
      → Silent cap s (ok (writer_tests w s, []))
  unfolding writer_tests
  tests-Silent {xs} {s} (holding line) e o = record {
    after = record s { writer = ended };
    added = [];
    xs' = xs;
    result = simp o.stopped refl;
    is_stopped = record {
      q = o.q;
      there = o.there;
      holds = o.holds;
      f = o.f;
      file = o.file;
      splits = o.splits;
      stopped = o.stopped;
    };
    last_line = ap (λ w. written_lines s ++ passed_test w) (sym e);
  }
  tests-Silent popping e o = idle-Silent o refl
  tests-Silent asleep e o = idle-Silent o refl
  tests-Silent (writing line) e o = idle-Silent o refl
  tests-Silent ended e o = idle-Silent o refl

  pub writes-Silent :
      {xs : List Line} {s : Async} (w : Writer)
      → s.writer ≡ w
      → IsStopped cap xs s
      → Silent cap s (writer_writes w s >>= λ s'. ok (s', []))
  unfolding writer_writes put
  writes-Silent {xs} {s} (writing line) e o = record {
    after = record s {
      logger = record s.logger { written = s.logger.written ++ ((o.f, line) ∷ []) };
      writer = popping;
    };
    added = [];
    xs' = xs;
    result = simp (put, o.file) refl;
    is_stopped = record {
      q = o.q;
      there = o.there;
      holds = o.holds;
      f = o.f;
      file = o.file;
      splits = o.splits;
      stopped = o.stopped;
    };
    last_line =
        append-nil _
        ∙ map-append (λ p. p.1) s.logger.written ((o.f, line) ∷ [])
        ∙ ap (λ w. written_lines s ++ passed_test w) (sym e);
  }
  writes-Silent popping e o = idle-Silent o refl
  writes-Silent asleep e o = idle-Silent o refl
  writes-Silent (holding line) e o = idle-Silent o refl
  writes-Silent ended e o = idle-Silent o refl
