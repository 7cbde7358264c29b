-- ===== src/Log/Level.antt =====
-- log/pr.cpp and log/log.h: the levels of the console and of the logger. A level of the console is an
-- `int`, which may be negative.
use high_performance_concurr.Base.{ℕ, Bool, ltb, leb, if◌then◌else◌, Outcome, ok, check, ◌>>◌}
use high_performance_concurr.Log.Queue.{ℤ, pos, negsuc}

abbrev pub pr_level_error : ℕ
pr_level_error = 0

abbrev pub pr_level_warn : ℕ
pr_level_warn = 1

abbrev pub pr_level_info : ℕ
pr_level_info = 2

abbrev pub pr_level_debug : ℕ
pr_level_debug = 3

-- `pr_set_level`, on the level of before: the new level, and the one that it returns.
unfoldable pub pr_set_level : ℤ → ℕ → ℕ × ℕ
pr_set_level (pos n) old = (if ltb pr_level_debug n then pr_level_debug else n, old)
pr_set_level (negsuc n) old = (0, old)

-- `PR`, whether a message of a level is printed at the level that is set; `PR_DEBUG` and the other three
-- fix the level of the message.
unfoldable pub pr : ℕ → ℕ → Bool
pr level pr_level = leb level pr_level

abbrev pub pr_debug : ℕ → Bool
unfolding pr
pr_debug = pr pr_level_debug

abbrev pub pr_info : ℕ → Bool
unfolding pr
pr_info = pr pr_level_info

abbrev pub pr_warn : ℕ → Bool
unfolding pr
pr_warn = pr pr_level_warn

abbrev pub pr_error : ℕ → Bool
unfolding pr
pr_error = pr pr_level_error

-- `Logger::log_level`, less NUM_LOG_LEVELS.
pub data LogLevel : Type 0 where
  log_level_error : LogLevel
  log_level_warn : LogLevel
  log_level_info : LogLevel
  log_level_debug : LogLevel

abbrev pub level_number : LogLevel → ℕ
level_number log_level_error = 0
level_number log_level_warn = 1
level_number log_level_info = 2
level_number log_level_debug = 3

-- `Logger::set_log_level`.
unfoldable pub set_log_level : ℕ → ℕ → Outcome (ℕ × ℕ)
set_log_level level old = do check (leb level 3); ok (level, old)
