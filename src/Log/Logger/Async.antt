-- ===== src/Log/Logger/Async.antt =====
-- The writing thread of `Logger`, and the threads that log: they turn the file over and hand their lines
-- to it through the queue.
pub mod Hold
pub mod Files
pub mod Passed
pub mod Lines
pub mod Silent
pub mod Stop
use high_performance_concurr.Base.{
  Bool, true, false, Option, none, some, List, [], ◌∷◌, ◌++◌, if◌then◌else◌, Outcome, ok, fault,
  ◌>>=◌,
}
use high_performance_concurr.Log.Queue
use high_performance_concurr.Log.Queue.{Queue, Popped, waits, got, failed}
use high_performance_concurr.Log.Logger.{Logger, Line, File, Date, rotate, put, hand_over}

-- Where the loop of `async_write` is: before `pop`; in the wait of `pop`; behind a `pop` that gave a
-- line, before it tests `is_thread_stop`; behind that test, before it has `l_mutex`; and behind the
-- loop.
pub data Writer : Type 0 where
  popping : Writer
  asleep : Writer
  holding : Line → Writer
  writing : Line → Writer
  ended : Writer

-- `stop` is `is_thread_stop`.
pub record Async : Type 0 where
  pub logger : Logger
  pub writer : Writer
  pub stop : Bool

-- A turn: the part of a `write_log` that counts a line, and may close the file and open another; the loop
-- at its end, which offers a line; `pop` up to its wait and behind it; the writer's test of
-- `is_thread_stop`, and its `fputs`; the destructor sets the flag, without `l_mutex`.
pub data Turn : Type 0 where
  rotates : Date → Turn
  offers : Line → Turn
  pops : Turn
  wakes : Turn
  tests : Turn
  writes : Turn
  stops : Turn

-- The writer behind a `pop`.
abbrev pub popped : Popped Line → Writer
popped waits = asleep
popped (got line) = holding line
popped failed = ended

unfoldable pub pop_turn : Async → Outcome (Queue Line × Popped Line) → Outcome Async
pop_turn s r = do
  r ← r
  ok (record s { logger = record s.logger { queue = some r.0 }; writer = popped r.1 })

-- A `pop` where the writer is at the place for it; the thread exists only if the queue does.
unfoldable pub writer_pops : Writer → Option (Queue Line) → Async → Outcome Async
writer_pops popping (some q) s = pop_turn s (Queue.pop q)
writer_pops popping none s = ok s
writer_pops asleep q s = ok s
writer_pops (holding line) q s = ok s
writer_pops (writing line) q s = ok s
writer_pops ended q s = ok s

unfoldable pub writer_wakes : Writer → Option (Queue Line) → Async → Outcome Async
writer_wakes asleep (some q) s = pop_turn s (Queue.pop_woken q)
writer_wakes asleep none s = ok s
writer_wakes popping q s = ok s
writer_wakes (holding line) q s = ok s
writer_wakes (writing line) q s = ok s
writer_wakes ended q s = ok s

unfoldable pub writer_tests : Writer → Async → Async
writer_tests (holding line) s = record s { writer = if s.stop then ended else writing line }
writer_tests popping s = s
writer_tests asleep s = s
writer_tests (writing line) s = s
writer_tests ended s = s

unfoldable pub writer_writes : Writer → Async → Outcome Async
writer_writes (writing line) s = do
  l ← put s.logger line
  ok (record s { logger = l; writer = popping })
writer_writes popping s = ok s
writer_writes asleep s = ok s
writer_writes (holding line) s = ok s
writer_writes ended s = ok s

module _ (opens : File → Bool) where
  unfoldable pub rotate_turn : Date → Async → Outcome Async
  rotate_turn date s = do l ← rotate opens date s.logger; ok (record s { logger = l })

  -- A turn, and the line that the queue took, if it took one. A turn at the wrong place does nothing.
  unfoldable pub turn : Turn → Async → Outcome (Async × List Line)
  turn (rotates date) s = do s ← rotate_turn date s; ok (s, [])
  turn (offers line) s = do
    r ← hand_over s.logger line
    ok (record s { logger = r.0 }, if r.1 then line ∷ [] else [])
  turn pops s = do s ← writer_pops s.writer s.logger.queue s; ok (s, [])
  turn wakes s = do s ← writer_wakes s.writer s.logger.queue s; ok (s, [])
  turn tests s = ok (writer_tests s.writer s, [])
  turn writes s = do s ← writer_writes s.writer s; ok (s, [])
  turn stops s = ok (record s { stop = true }, [])

  unfoldable pub run : List Turn → Async → Outcome (Async × List Line)
  run [] s = ok (s, [])
  run (t ∷ ts) s = do r ← turn t s; rest ← run ts r.0; ok (rest.0, r.1 ++ rest.1)
