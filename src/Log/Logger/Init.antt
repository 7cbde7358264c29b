-- ===== src/Log/Logger/Init.antt =====
-- log/log.cpp, `Logger::init`, and the macros of log/log.h.
pub mod Ready
use high_performance_concurr.Base.{
  ℕ, Bool, true, false, Option, none, some, List, [], ◌∷◌, ◌++◌, ltb, leb, ◌==◌, not, ◌||◌,
  if◌then◌else◌, length, drop, Outcome, ok, check, ◌>>=◌, ◌>>◌,
}
use high_performance_concurr.Log.Queue
use high_performance_concurr.Log.Queue.{ℤ, pos, Queue}
use high_performance_concurr.Log.Level.{set_log_level}
use high_performance_concurr.Log.Logger.{Date, Logger, Line, File, stdout, dated, fopen, write_log}
use high_performance_concurr.Log.Logger.Names.{split_path}

-- The one `Logger`: `l_inited`, `l_is_stdout`, `l_dir_name`, `l_file_name`, whether it has a writing
-- thread, and `g_log_level`, beside the fields of `Logger`.
pub record Instance : Type 0 where
  pub inited : Bool
  pub is_stdout : Bool
  pub dir_name : List ℕ
  pub file_name : List ℕ
  pub has_thread : Bool
  pub level : ℕ
  pub logger : Logger

-- How `init` ends: it returns true, or false, or it throws.
pub data Result : Type 0 where
  ready : Result
  refused : Result
  thrown : Result

pub record Settings : Type 0 where
  pub path : Option (List ℕ)
  pub buffer_queue_size : ℕ
  pub level : ℕ
  pub buffer_size : ℕ
  pub split_lines : ℕ

abbrev pub is_null : Option (List ℕ) → Bool
is_null none = true
is_null (some path) = false

abbrev pub is_long : Option (List ℕ) → Bool
is_long none = false
is_long (some path) = leb 128 (length path)

-- The ring and the thread behind it, where the size asks for them.
abbrev pub start_queue : ℕ → Instance → Instance
start_queue size i =
    if leb 1 size
    then record i {
      logger = record i.logger { queue = Queue.make [] (pos size) false };
      has_thread = true;
    }
    else i

abbrev pub set_sizes : Settings → Date → Instance → Instance
set_sizes c date i = record i {
  logger = record i.logger {
    buf_size = c.buffer_size;
    split_lines = c.split_lines;
    today = date.day;
  };
}

-- `strncpy` of `s` and no end of the string: what stood behind stays.
abbrev pub strncpy : List ℕ → List ℕ → List ℕ
strncpy s old = s ++ drop (length s) old

module _ (opens : File → Bool) where
  -- The end of `init`, with the parts of the path.
  abbrev pub open_first : Date → Option (List ℕ × List ℕ) → Instance → Instance × Result
  open_first date none i = (i, refused)
  open_first date (some (dir, name)) i =
      let named : Instance = record i {
        dir_name = strncpy dir i.dir_name;
        file_name = name;
        logger = record i.logger { fp = fopen opens (dated date) };
      } in
      if opens (dated date) then (record named { inited = true }, ready) else (named, refused)

  abbrev pub split_of : Option (List ℕ) → Option (List ℕ × List ℕ)
  split_of none = none
  split_of (some path) = split_path path

  -- `init` behind its tests.
  unfoldable pub set_up : Settings → Date → Instance → Outcome (Instance × Result)
  set_up c date i = do
    levels ← set_log_level c.level i.level
    let j : Instance =
        set_sizes c date (start_queue c.buffer_queue_size (record i { level = levels.0 }))
    ok (
        if j.is_stdout
        then (record j { inited = true; logger = record j.logger { fp = some stdout } }, ready)
        else open_first date (split_of c.path) j)

  -- `Logger::init`; `date` is today's.
  unfoldable pub init : Settings → Date → Instance → Outcome (Instance × Result)
  init c date i = if i.inited then ok (i, refused) else (do
    let j : Instance = record i { is_stdout = i.is_stdout || is_null c.path }
    if not j.is_stdout
        then (if is_long c.path then ok (j, thrown) else set_up c date j)
        else set_up c date j)

  -- `LOG_ERROR` and the other three, of a message of level `level`, up to the first turn of the loop on
  -- a full queue. They also flush the file, and complain on the console where the logger is not inited.
  unfoldable pub log_message : ℕ → Date → Line → Line → Instance → Outcome Instance
  log_message level date head body i =
      if leb level i.level
      then (do r ← write_log opens date head body i.logger; ok (record i { logger = r.0 }))
      else ok i
