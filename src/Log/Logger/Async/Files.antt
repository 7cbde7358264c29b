-- ===== src/Log/Logger/Async/Files.antt =====
-- The file of a logger, turned over by a thread that logs.
use high_performance_concurr.Base.{
  ◌+◌, ◌%◌, ◌/◌, ◌≡◌, ◌≢◌, refl, Bool, true, false, some, arith, inl, inr, Bool-cases, ◌==◌, ok,
}
use high_performance_concurr.Log.Logger.{Logger, File, Date, dated, numbered, rotate}

-- A file is open, and all else but the count and the day is as it was.
pub record Kept (l l' : Logger) : Type 0 where
  pub file : File
  pub open_file : l'.fp ≡ some file
  pub split_same : l'.split_lines ≡ l.split_lines
  pub queue_same : l'.queue ≡ l.queue
  pub written_same : l'.written ≡ l.written

-- Where a file is open, and every file opens, counting a line does not fault and leaves one open.
pub rotate-Kept :
    (opens : File → Bool)
    → ((f : File) → opens f ≡ true)
    → (now : Date) (l : Logger) (f : File) → l.split_lines ≢ 0
    → l.fp ≡ some f
    → (l' : Logger) × (rotate opens now l ≡ ok l') × Kept l l'
unfolding rotate
rotate-Kept opens all_open now l f some_lines file =
    let splits : (l.split_lines == 0) ≡ false = ground (arith, some_lines) in
    elim (Bool-cases (l.today == now.day)) [
      | inr other ↦ (
        record l { fp = some (dated now); today = now.day; count = 0 },
        simp (rotate, splits, other, file, all_open (dated now)) refl,
        record {
          file = dated now;
          open_file = refl;
          split_same = refl;
          queue_same = refl;
          written_same = refl;
        },
      )
      | inl same ↦
          let next : File = numbered now ((l.count + 1) / l.split_lines) in
          elim (Bool-cases ((l.count + 1) % l.split_lines == 0)) [
            | inl full ↦ (
              record l { fp = some next; count = l.count + 1 },
              simp (rotate, splits, same, full, file, all_open next) refl,
              record {
                file = next;
                open_file = refl;
                split_same = refl;
                queue_same = refl;
                written_same = refl;
              },
            )
            | inr room ↦ (
              record l { count = l.count + 1 },
              simp (rotate, splits, same, room) refl,
              record {
                file = f;
                open_file = file;
                split_same = refl;
                queue_same = refl;
                written_same = refl;
              },
            )
          ]
    ]
