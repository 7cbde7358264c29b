-- ===== src/Log/Logger/Rotation.antt =====
-- Which file a line goes to.
use high_performance_concurr.Base.{
  ℕ, ◌+◌, ◌/◌, ◌%◌, ◌≤◌, ◌<◌, ◌≡◌, ◌≢◌, refl, ap, ◌∙◌, Bool, true, false, none, some, [], ◌∷◌, ◌++◌,
  arith, inl, inr, Bool-cases, ltb, ==_iff, lt→ltb, le→leb, dec_lt, ◌==◌, if◌then◌else◌, length,
  Outcome, ok, ◌>>=◌,
}
use native.Mathlib.Nat.{mod_self, mod-eq_of_lt}
use high_performance_concurr.Log.Logger.{
  Date, Logger, File, dated, numbered, Line, fopen, rotate, format_line, put, hand_over, write_log,
  newline,
}

-- The file of the line that is the `n`-th since the count began, for files named by a date.
abbrev pub file_of : Date → ℕ → ℕ → File
file_of on split n = if ltb n split then dated on else numbered on (n / split)

-- The logger has the file open that its count stands for, of a date whose day of the month it has.
pub record IsInStep (on : Date) (l : Logger) : Type 0 where
  pub splits : l.split_lines ≢ 0
  pub same_day : l.today ≡ on.day
  pub open_file : l.fp ≡ some (file_of on l.split_lines l.count)

-- The date that names the file behind a line of `now`: a file stays, whatever its date, as long as the
-- day of the month is the same and it is not full.
abbrev pub named_by : Date → Date → Logger → Date
named_by on now l =
    if l.today == now.day then if (l.count + 1) % l.split_lines == 0 then now else on else now

below : (n s : ℕ) → s ≢ 0 → (n + 1) % s ≢ 0 → (n + 1) / s ≡ n / s
below n s h k = grind arith

same_file :
    (on : Date) (s n : ℕ)
    → s ≢ 0
    → ((n + 1) % s == 0) ≡ false
    → file_of on s n ≡ file_of on s (n + 1)
same_file on s n h k =
    let not_zero : (n + 1) % s ≢ 0 = ground arith in
    let not_split : n + 1 ≢ s = λ e. not_zero (ap (λ x. x % s) e ∙ mod_self s) in
    elim (dec_lt n s) [
      | yes early ↦ rw (lt→ltb n s early, lt→ltb (n + 1) s (omega (arith, early, not_split)))
      | no late ↦
          let now_late : ltb n s ≡ false = ground arith in
          let then_late : ltb (n + 1) s ≡ false = ground arith in
          rw (now_late, then_late, below n s h not_zero)
    ]

next_file :
    (on : Date) (s n : ℕ)
    → s ≢ 0
    → ((n + 1) % s == 0) ≡ true
    → numbered on ((n + 1) / s) ≡ file_of on s (n + 1)
next_file on s n h k =
    let zero_rest : (n + 1) % s ≡ 0 = (==_iff _ _).0 k in
    let not_early : ltb (n + 1) s ≡ false = elim (dec_lt (n + 1) s) [
      | yes early ↦ absurd (omega (arith, zero_rest, mod-eq_of_lt early))
      | no late ↦ ground arith
    ] in
    rw not_early

-- A line is counted, from 0 when the day of the month changes, and the file that its number stands for
-- is open.
pub record Rotated (on now : Date) (l l' : Logger) : Type 0 where
  pub in_step : IsInStep (named_by on now l) l'
  pub counted : l'.count ≡ (if l.today == now.day then l.count + 1 else 0)
  pub split_same : l'.split_lines ≡ l.split_lines
  pub buf_same : l'.buf_size ≡ l.buf_size
  pub queue_same : l'.queue ≡ l.queue
  pub written_same : l'.written ≡ l.written

-- What `write_log` leaves, without a queue: the line in the file that its number stands for.
pub record Logged (on now : Date) (line : Line) (l : Logger) (r : Outcome (Logger × Bool))
    : Type 0 where
  pub after : Logger
  pub result : r ≡ ok (after, true)
  pub in_step : IsInStep (named_by on now l) after
  pub counted : after.count ≡ (if l.today == now.day then l.count + 1 else 0)
  pub placed :
      after.written
      ≡ l.written ++ ((file_of (named_by on now l) l.split_lines after.count, line) ∷ [])

hand_over-sync :
    (l : Logger) (line : Line) (f : File)
    → l.queue ≡ none
    → l.fp ≡ some f
    → hand_over l line ≡ ok (record l { written = l.written ++ ((f, line) ∷ []) }, true)
unfolding hand_over put
hand_over-sync l line f sync file = simp (hand_over, sync, put, file) refl

format_line-fits :
    (l : Logger) (head body : Line)
    → length head ≤ 299
    → length head + length body + 1 < l.buf_size
    → format_line l head body ≡ ok (head ++ body ++ (newline ∷ []))
unfolding format_line
format_line-fits l head body short fits = rw (lt→ltb _ _ fits, le→leb (length head) 299 short)

module _ (opens : File → Bool) (all_open : (f : File) → opens f ≡ true) where
  opened : (f : File) → fopen opens f ≡ some f
  opened f = rw (all_open f)

  rotate-Rotated :
      (on now : Date) (l : Logger)
      → IsInStep on l
      → (l' : Logger) × (rotate opens now l ≡ ok l') × Rotated on now l l'
  unfolding rotate
  rotate-Rotated on now l h =
      let splits : (l.split_lines == 0) ≡ false = ground (arith, h.splits) in
      elim (Bool-cases (l.today == now.day)) [
        | inr other ↦ (
          record l { fp = some (dated now); today = now.day; count = 0 },
          simp (rotate, splits, other, h.open_file, all_open (dated now)) refl,
          record {
            in_step = simp other (record {
              splits = h.splits;
              same_day = refl;
              open_file = rw (lt→ltb 0 l.split_lines (omega (arith, h.splits)));
            });
            counted = simp other refl;
            split_same = refl;
            buf_same = refl;
            queue_same = refl;
            written_same = refl;
          },
        )
        | inl same ↦
            let next : File = numbered now ((l.count + 1) / l.split_lines) in
            elim (Bool-cases ((l.count + 1) % l.split_lines == 0)) [
              | inl full ↦ (
                record l { fp = some next; count = l.count + 1 },
                simp (rotate, splits, same, full, h.open_file, all_open next) refl,
                record {
                  in_step =
                      simp (same, full)
                        (record {
                          splits = h.splits;
                          same_day = (==_iff _ _).0 same;
                          open_file = ap some (next_file now l.split_lines l.count h.splits full);
                        });
                  counted = simp same refl;
                  split_same = refl;
                  buf_same = refl;
                  queue_same = refl;
                  written_same = refl;
                },
              )
              | inr room ↦ (
                record l { count = l.count + 1 },
                simp (rotate, splits, same, room) refl,
                record {
                  in_step =
                      simp (same, room)
                        (record {
                          splits = h.splits;
                          same_day = h.same_day;
                          open_file =
                              h.open_file
                              ∙ ap some (same_file on l.split_lines l.count h.splits room);
                        });
                  counted = simp same refl;
                  split_same = refl;
                  buf_same = refl;
                  queue_same = refl;
                  written_same = refl;
                },
              )
            ]
      ]

  -- `write_log` of a logger with no queue, whose open file is that of its count and of a date `on`,
  -- with a prefix of at most 299 bytes and a line that fits the buffer, where every file opens: the
  -- line, with a line feed, is written to the file of its number, and the open file is again that of
  -- the count. Numbers begin at 0 when the day of the month changes, and each `split_lines` of them
  -- share a file, the first ones the file without a suffix. A new file is named by the date of the
  -- line that begins it; on the same day of another month an old one stays until it is full.
  pub write_log-Logged :
      (on now : Date) (head body : Line) (l : Logger)
      → IsInStep on l
      → l.queue ≡ none
      → length head ≤ 299
      → length head + length body + 1 < l.buf_size
      → Logged on now (head ++ body ++ (newline ∷ [])) l (write_log opens now head body l)
  unfolding write_log
  write_log-Logged on now head body l h sync short fits =
      let (l', ran, t) = rotate-Rotated on now l h in
      let line : Line = head ++ body ++ (newline ∷ []) in
      let file : File = file_of (named_by on now l) l'.split_lines l'.count in
      let formatted = format_line-fits l' head body short (omega (arith, t.buf_same, fits)) in
      record {
        after = record l' { written = l'.written ++ ((file, line) ∷ []) };
        result =
            rw (ran, ◌>>=◌, formatted, ◌>>=◌)
              (hand_over-sync l' line file (t.queue_same ∙ sync) t.in_step.open_file);
        in_step = record {
          splits = t.in_step.splits;
          same_day = t.in_step.same_day;
          open_file = t.in_step.open_file;
        };
        counted = t.counted;
        placed =
            ap (λ ws. ws ++ ((file, line) ∷ [])) t.written_same
            ∙ ap (λ n. l.written ++ ((file_of (named_by on now l) n l'.count, line) ∷ []))
                t.split_same;
      }
