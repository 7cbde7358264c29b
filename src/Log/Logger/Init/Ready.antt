-- ===== src/Log/Logger/Init/Ready.antt =====
-- A logger that `init` has set up for a file, and the first message to it.
use high_performance_concurr.Base.{
  ℕ, ◌≤◌, ◌<◌, ◌≡◌, refl, ap, ◌∙◌, Bool, false, some, List, [], ◌∷◌, ◌++◌, arith, leb, le→leb,
  if◌then◌else◌, length, ok, Bool-cases, inl, inr,
}
use high_performance_concurr.Log.Queue
use high_performance_concurr.Log.Queue.{pos, Queue}
use high_performance_concurr.Log.Level.{set_log_level}
use high_performance_concurr.Log.Logger.{Date, Line, File, dated, fopen, write_log, newline}
use high_performance_concurr.Log.Logger.Names.{split_path}
use high_performance_concurr.Log.Logger.Rotation.{Logged}
use high_performance_concurr.Log.Logger.Init.{
  Instance, ready, refused, Settings, strncpy, start_queue, set_sizes, open_first, set_up, init,
  log_message,
}

-- The instance behind an `init` that comes to open the file of `dir` and `name`.
pub record IsNamed (opens : File → Bool) (c : Settings) (date : Date) (dir name : List ℕ)
    (i after : Instance) : Type 0 where
  pub level_set : after.level ≡ c.level
  pub to_file : after.is_stdout ≡ false
  pub dir_set : after.dir_name ≡ strncpy dir i.dir_name
  pub name_set : after.file_name ≡ name
  pub open_file : after.logger.fp ≡ fopen opens (dated date)
  pub queue_set : after.logger.queue ≡ (
      if leb 1 c.buffer_queue_size
      then Queue.make [] (pos c.buffer_queue_size) false
      else i.logger.queue)
  pub splits_set : after.logger.split_lines ≡ c.split_lines
  pub buf_set : after.logger.buf_size ≡ c.buffer_size
  pub is_today : after.logger.today ≡ date.day
  pub count_same : after.logger.count ≡ i.logger.count
  pub written_same : after.logger.written ≡ i.logger.written

module _ (opens : File → Bool) where
  -- The instance up to where it opens its file, and behind that.
  abbrev base : Settings → Date → Instance → Instance
  base c date i =
      set_sizes c date
        (start_queue c.buffer_queue_size (record i { is_stdout = false; level = c.level }))

  abbrev opened : Settings → Date → List ℕ → List ℕ → Instance → Instance
  opened c date dir name i =
      let j : Instance = base c date i in
      record j {
        inited = opens (dated date);
        dir_name = strncpy dir j.dir_name;
        file_name = name;
        logger = record j.logger { fp = fopen opens (dated date) };
      }

  open_first-opened :
      (c : Settings) (date : Date) (dir name : List ℕ) (i : Instance)
      → (base c date i).inited ≡ false
      → open_first opens date (some (dir, name)) (base c date i)
        ≡ (opened c date dir name i, (if opens (dated date) then ready else refused))
  open_first-opened c date dir name i first = elim (Bool-cases (opens (dated date))) [
    | inl found ↦ simp found refl
    | inr lost ↦ simp (lost, first) refl
  ]

  base-fields :
      (c : Settings) (date : Date) (i : Instance)
      → ((base c date i).inited ≡ i.inited)
        × ((base c date i).dir_name ≡ i.dir_name)
        × ((base c date i).level ≡ c.level)
        × ((base c date i).is_stdout ≡ false)
        × ((base c date i).logger.count ≡ i.logger.count)
        × ((base c date i).logger.written ≡ i.logger.written)
        × ((base c date i).logger.queue ≡ (
            if leb 1 c.buffer_queue_size
            then Queue.make [] (pos c.buffer_queue_size) false
            else i.logger.queue))
  base-fields c date i = elim (Bool-cases (leb 1 c.buffer_queue_size)) [
    | inl async ↦ simp async (refl, refl, refl, refl, refl, refl, refl)
    | inr sync ↦ simp sync (refl, refl, refl, refl, refl, refl, refl)
  ]

  init-base :
      (c : Settings) (date : Date) (path dir name : List ℕ) (i : Instance)
      → i.inited ≡ false
      → i.is_stdout ≡ false
      → c.path ≡ some path
      → length path < 128
      → c.level ≤ 3
      → split_path path ≡ some (dir, name)
      → init opens c date i ≡ ok (open_first opens date (some (dir, name)) (base c date i))
  unfolding init set_up set_log_level
  init-base c date path dir name i first file there short low parts =
      let fits : leb 128 (length path) ≡ false = ground arith in
      elim (Bool-cases (leb 1 c.buffer_queue_size)) [
        | inl async ↦ simp (first, file, there, fits, le→leb c.level 3 low, parts, async) refl
        | inr sync ↦ simp (first, file, there, fits, le→leb c.level 3 low, parts, sync) refl
      ]

  -- A first `init` for a file, by a path of less than 128 bytes with a '/' and by one of the four
  -- levels, sets every field from its arguments, but for the name of the directory: what an earlier
  -- `init` left behind its end stays. It is refused where the file does not open, and leaves all but
  -- the file as if it had.
  pub init-IsNamed :
      (c : Settings) (date : Date) (path dir name : List ℕ) (i : Instance)
      → i.inited ≡ false
      → i.is_stdout ≡ false
      → c.path ≡ some path
      → length path < 128
      → c.level ≤ 3
      → split_path path ≡ some (dir, name)
      → (after : Instance) × (init opens c date i
          ≡ ok (after, (if opens (dated date) then ready else refused)))
        × (after.inited ≡ opens (dated date))
        × IsNamed opens c date dir name i after
  init-IsNamed c date path dir name i first file there short low parts =
      let (keeps, dirs, levels, outs, counts, writes, queues) = base-fields c date i in
      let ended = open_first-opened c date dir name i (keeps ∙ first) in
      (
        opened c date dir name i,
        init-base c date path dir name i first file there short low parts ∙ ap ok ended,
        refl,
        record {
          level_set = levels;
          to_file = outs;
          dir_set = ap (strncpy dir) dirs;
          name_set = refl;
          open_file = refl;
          queue_set = queues;
          splits_set = refl;
          buf_set = refl;
          is_today = refl;
          count_same = counts;
          written_same = writes;
        },
      )

-- `init` and one message of a level: what `init` leaves, the file's whole path, what `write_log` would do, and what
-- the macro did.
pub record Messaged (opens : File → Bool) (c : Settings) (date now : Date) (path : List ℕ)
    (head body : Line) (level : ℕ) (i : Instance) : Type 0 where
  pub i1 : Instance
  pub init_ran : init opens c date i ≡ ok (i1, ready)
  pub whole : i1.dir_name ++ i1.file_name ≡ path
  pub logged :
      Logged date now
        (head ++ body ++ (newline ∷ []))
        i1.logger
        (write_log opens now head body i1.logger)
  pub message :
      log_message opens level now head body i1
      ≡ ok (if leb level c.level then record i1 { logger = logged.after } else i1)
