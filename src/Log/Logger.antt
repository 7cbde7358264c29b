-- ===== src/Log/Logger.antt =====
-- log/log.h, log/log.cpp: `Logger` and the path of a line through it. The date and the text that the
-- format makes are arguments of `write_log`; a file is named by what tells it from the others, and
-- which files `fopen` opens is a parameter.
pub mod Rotation
pub mod Init
pub mod Names
pub mod Async
use high_performance_concurr.Base.{
  ℕ, ◌+◌, ◌/◌, ◌%◌, ◌≤◌, Bool, true, false, Option, none, some, List, [], ◌∷◌, ◌++◌, ltb, leb, ◌==◌,
  not, ◌||◌, if◌then◌else◌, take, length, Outcome, ok, fault, require, ◌>>=◌, ◌>>◌,
}
use high_performance_concurr.Log.Queue
use high_performance_concurr.Log.Queue.{Queue, Popped, waits, got, failed}

-- What the code uses of `my_time`, but for the time of day, which only the line's prefix has.
pub record Date : Type 0 where
  pub year : ℕ
  pub month : ℕ
  pub day : ℕ

-- `stdout`, `dir/date_name`, and `dir/date_name.n`.
pub data File : Type 0 where
  stdout : File
  dated : Date → File
  numbered : Date → ℕ → File

abbrev pub Line : Type 0
Line = List ℕ

-- `today` is a day of the month; `queue` is `l_buffer_queue`, none if the logger is not asynchronous; `fp` is
-- `l_fp`, none for a null pointer; `written` is what was put into files, in order.
pub record Logger : Type 0 where
  pub split_lines : ℕ
  pub buf_size : ℕ
  pub count : ℕ
  pub today : ℕ
  pub fp : Option File
  pub queue : Option (Queue Line)
  pub written : List (File × Line)

-- `fopen`, null where it fails.
abbrev pub fopen : (File → Bool) → File → Option File
fopen opens f = if opens f then some f else none

-- The first block of `write_log`: the line is counted, and may begin a new file, for which the old one
-- is closed. `%` by 0 is undefined, and so is `fclose` of a null pointer.
unfoldable pub rotate : (File → Bool) → Date → Logger → Outcome Logger
rotate opens date l = do
  require (not (l.split_lines == 0))
  let n = l.count + 1
  if not (l.today == date.day)
      then elim l.fp [
        | none ↦ fault
        | some f ↦ ok (record l { fp = fopen opens (dated date); today = date.day; count = 0 })
      ]
      else if n % l.split_lines == 0
      then elim l.fp [
        | none ↦ fault
        | some f ↦ ok (record l { fp = fopen opens (numbered date (n / l.split_lines)); count = n })
      ]
      else ok (record l { count = n })

abbrev pub newline : ℕ
newline = 10

-- The second block: `head` is what `snprintf` makes for at most 300 bytes, `body` what `vsnprintf`
-- makes. The line feed and the end of the string go behind both, wherever that is.
unfoldable pub format_line : Logger → Line → Line → Outcome Line
format_line l head body = do
  require (ltb (length head + length body + 1) l.buf_size)
  ok (if leb (length head) 299 then head ++ body ++ (newline ∷ []) else take 299 head)

-- `fputs`, which a null pointer may not be given.
unfoldable pub put : Logger → Line → Outcome Logger
put l line = elim l.fp [
  | none ↦ fault
  | some f ↦ ok (record l { written = l.written ++ ((f, line) ∷ []) })
]

-- The end of `write_log`: false where the queue is full and the loop tries again.
unfoldable pub hand_over : Logger → Line → Outcome (Logger × Bool)
unfolding Queue.push put
hand_over l line = elim l.queue [
  | none ↦ do l ← put l line; ok (l, true)
  | some q ↦ do r ← Queue.push q line; ok (record l { queue = some r.0 }, r.1)
]

-- `write_log`, up to the first turn of the loop on a full queue, by a thread that no other comes in
-- between. Its three parts take the lock each for itself; Logger/Async has the first and the last as
-- separate turns.
unfoldable pub write_log : (File → Bool) → Date → Line → Line → Logger → Outcome (Logger × Bool)
write_log opens date head body l = do
  l ← rotate opens date l
  line ← format_line l head body
  hand_over l line
