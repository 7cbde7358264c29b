-- ===== src/Log/Tests.antt =====
-- Small queues and a logger, and the theorems on them.
mod Loggers
use high_performance_concurr.Base.{
  true, Bool, some, ℕ, ◌≡◌, refl, false, none, List, [], ◌∷◌, arith, ok,
}
use high_performance_concurr.Log.Queue.{pos, Queue, front}
use high_performance_concurr.Log.Queue.Fifo.{Op, put, take, wake, fifo_run}
use high_performance_concurr.Log.Queue.Refine.{Holds, queue_run}
use high_performance_concurr.Log.Queue.Run.{queue_run-Holds, front_at, front_lem}
use high_performance_concurr.Log.Logger.{Date, Logger, File, numbered, newline, write_log}
use high_performance_concurr.Log.Logger.Rotation.{IsInStep, Logged, write_log-Logged}

-- A ring of two that has gone round: it holds 5, at index 0.
abbrev gone_round : Queue ℕ
gone_round = record {
  items = 5 ∷ 4 ∷ [];
  rcnt = 0;
  wcnt = 0;
  debug = false;
  first = pos 1;
  last = pos 0;
  size = 1;
  capacity = 2;
}

gone_round-Holds : Holds 2 gone_round (5 ∷ [])
gone_round-Holds = record {
  valid = record {
    array = refl;
    positive = omega arith;
    room = omega arith;
    first_in = omega arith;
    last_in = omega arith;
    meet = refl;
  };
  items = refl;
  bound = refl;
}

abbrev ops : List (Op ℕ)
ops = put 6 ∷ put 7 ∷ take ∷ take ∷ take ∷ wake ∷ []

queue_run_example :
    (q' : Queue ℕ) × (queue_run ops gone_round ≡ ok (q', (fifo_run 2 ops (5 ∷ [])).1))
    × Holds 2 q' (fifo_run 2 ops (5 ∷ [])).0
queue_run_example = queue_run-Holds ops (5 ∷ []) gone_round-Holds

-- Every file opens.
abbrev all_files : File → Bool
all_files f = true

-- Two dates with one day of the month.
abbrev may : Date
may = record { year = 2024; month = 5; day = 3 }

abbrev june : Date
june = record { year = 2024; month = 6; day = 3 }

-- The 9999th line since the third of May was the last.
abbrev logger : Logger
logger = record {
  split_lines = 5000;
  buf_size = 8192;
  count = 9999;
  today = 3;
  fp = some (numbered may 1);
  queue = none;
  written = [];
}

logger-IsInStep : IsInStep may logger
logger-IsInStep = record { splits = λ e. absurd (omega arith); same_day = refl; open_file = refl }

write_log_example :
    Logged may june
      (1 ∷ 2 ∷ 3 ∷ newline ∷ [])
      logger
      (write_log all_files june (1 ∷ 2 ∷ []) (3 ∷ []) logger)
write_log_example =
    write_log-Logged all_files (λ f. refl) may june (1 ∷ 2 ∷ []) (3 ∷ []) logger logger-IsInStep
      refl (omega arith) (omega arith)
