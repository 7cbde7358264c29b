-- ===== src/Log/Tests/Loggers.antt =====
-- A logger that is set up, and one with a writing thread, and the theorems on them.
use high_performance_concurr.Base.{ℕ, refl, true, false, none, some, List, [], ◌∷◌, arith}
use high_performance_concurr.Log.Queue.{Queue, pos}
use high_performance_concurr.Log.Queue.Refine.{Holds}
use high_performance_concurr.Log.Logger.{Line, dated}
use high_performance_concurr.Log.Logger.Async.{
  Async, Turn, popping, writing, rotates, offers, pops, tests, writes, run,
}
use high_performance_concurr.Log.Logger.Async.Passed.{Passed}
use high_performance_concurr.Log.Logger.Async.Lines.{lines_in_order}
use high_performance_concurr.Log.Logger.Async.Silent.{Silent}
use high_performance_concurr.Log.Logger.Async.Stop.{lost_at_stop}
use high_performance_concurr.Log.Logger.Names.{split_path, IsSplit, split_path-IsSplit}
use high_performance_concurr.Log.Logger.Init.{Instance, Settings}
use high_performance_concurr.Log.Tests.{logger, may, june, all_files}

-- A ring of two that holds one line.
abbrev lines : Queue Line
lines = record {
  items = (5 ∷ []) ∷ [] ∷ [];
  rcnt = 0;
  wcnt = 0;
  debug = false;
  first = pos 1;
  last = pos 0;
  size = 1;
  capacity = 2;
}

lines-Holds : Holds 2 lines ((5 ∷ []) ∷ [])
lines-Holds = record {
  valid = record {
    array = refl;
    positive = omega arith;
    room = omega arith;
    first_in = omega arith;
    last_in = omega arith;
    meet = refl;
  };
  items = refl;
  bound = refl;
}

-- The file of the third of May is open, and the writing thread is before its `pop`.
abbrev writing_thread : Async
writing_thread = record {
  logger = record logger { fp = some (dated may); queue = some lines };
  writer = popping;
  stop = false;
}

abbrev turns : List Turn
turns = rotates june ∷ offers (6 ∷ []) ∷ pops ∷ tests ∷ writes ∷ offers (7 ∷ []) ∷ pops ∷ []

lines_in_order_example :
    Passed 2 ((5 ∷ []) ∷ []) writing_thread (run all_files turns writing_thread)
lines_in_order_example =
    lines_in_order all_files (λ f. refl) turns ((5 ∷ []) ∷ []) writing_thread
      ((λ e. cc), ((λ e. cc), ((λ e. cc), ((λ e. cc), ((λ e. cc), ((λ e. cc), ((λ e. cc), tt)))))))
      (record {
        q = lines;
        there = refl;
        holds = lines-Holds;
        f = dated may;
        file = refl;
        splits = λ e. absurd (omega arith);
        runs = refl;
      })

-- The writer had passed its test with the line 4 when the flag was set.
abbrev stopped : Async
stopped = record writing_thread { writer = writing (4 ∷ []); stop = true }

abbrev last_turns : List Turn
last_turns = writes ∷ offers (6 ∷ []) ∷ pops ∷ tests ∷ []

lost_at_stop_example : Silent 2 stopped (run all_files last_turns stopped)
lost_at_stop_example =
    lost_at_stop all_files (λ f. refl) last_turns ((5 ∷ []) ∷ []) stopped
      (record {
        q = lines;
        there = refl;
        holds = lines-Holds;
        f = dated may;
        file = refl;
        splits = λ e. absurd (omega arith);
        stopped = refl;
      })

-- "d/l".
abbrev path : List ℕ
path = 100 ∷ 47 ∷ 108 ∷ []

split_path-IsSplit_example : IsSplit path (100 ∷ 47 ∷ []) (108 ∷ [])
unfolding split_path
split_path-IsSplit_example = split_path-IsSplit path (100 ∷ 47 ∷ []) (108 ∷ []) refl

abbrev settings : Settings
settings = record {
  path = some path;
  buffer_queue_size = 0;
  level = 2;
  buffer_size = 8192;
  split_lines = 5000;
}

-- The logger as it is before `init`.
abbrev fresh : Instance
fresh = record {
  inited = false;
  is_stdout = false;
  dir_name = [];
  file_name = [];
  has_thread = false;
  level = 3;
  logger = record {
    split_lines = 0;
    buf_size = 0;
    count = 0;
    today = 0;
    fp = none;
    queue = none;
    written = [];
  };
}
