-- ===== src/Memory/Buffer/Append.antt =====
-- `write2buf` and `read_from_fd` append to what a buffer holds.
use native.Mathlib.Nat.{zero-add}
use high_performance_concurr.Base.{
  subst, le→leb, not-leb, not-ltb, ℕ, ◌+◌, ◌≤◌, ◌<◌, ◌≡◌, ◌≢◌, refl, sym, ap, ◌∙◌, Bool, true,
  Option, none, some, List, [], ◌++◌, append-nil, ok, fault, arith, ◌⊎◌, inl, inr,
}
use high_performance_concurr.Memory.Bytes.{Bytes, slice, blit, slice-blit_append}
use high_performance_concurr.Memory.Chunk.{Chunk, contents}
use high_performance_concurr.Memory.Store.{Mem, Grant, update, ◌>>=◌}
use high_performance_concurr.Memory.Pool.{m_low, m_up}
use high_performance_concurr.Memory.Pool.FreeList.{update-ne, update-eq}
use high_performance_concurr.Memory.Pool.Invariant.{Inv, Ensures, Ensures-bind}
use high_performance_concurr.Memory.Pool.Write.{Inv-write}
use high_performance_concurr.Memory.Buffer.Room.{
  Owns, contents_of, live, head_of, Room, RoomPost, NoChunk,
}
use high_performance_concurr.Memory.Buffer.Reserve.{reserve-Ensures}
use high_performance_concurr.Memory.Buffer.{
  Buffer, Ret, count, error, Io, done, again, failed, reserve, write_into, write2buf, read_into,
  read_from_fd, int_limit,
}

-- Behind a call the buffer is `b'` and holds what `b` held and then `added`; the pool is in good
-- order, and the chunks that others hold are as they were and still theirs.
pub record Grown (m : Mem) (held : ℕ → Bool) (b : Buffer) (added : List ℕ) (b' : Buffer) (m' : Mem)
    : Type 0 where
  pub free' : ℕ → List ℕ
  pub held' : ℕ → Bool
  pub inv : Inv m' free' held'
  pub owns : Owns held' b'
  pub front : head_of m'.heap b' ≡ 0
  pub bytes : contents_of m'.heap b' ≡ contents_of m.heap b ++ added
  pub others :
      (q : ℕ)
      → held q ≡ true
      → b ≢ some q
      → (held' q ≡ true) × (m'.heap q ≡ m.heap q) × (b' ≢ some q)

-- `n` bytes of `src` behind the live bytes of a chunk.
abbrev pub appended : Chunk → Bytes → ℕ → Chunk
appended c src n = record c { bytes = blit c.bytes c.length src 0 n; length = c.length + n }

contents-appended :
    (c : Chunk) (src : Bytes) (n : ℕ)
    → c.head ≡ 0
    → contents (appended c src n) ≡ contents c ++ slice src 0 n
contents-appended c src n e = rw e (
    subst
      (λ x.
        slice (blit c.bytes x src 0 n) 0 (c.length + n) ≡ slice c.bytes 0 c.length ++ slice src 0 n)
      (zero-add c.length) (slice-blit_append c.bytes src 0 c.length 0 n))

module _ {m m' : Mem} {held : ℕ → Bool} {b : Buffer} {need p : ℕ}
    (r : Room m held b need p m') where
  Room-same : Grown m held b [] (some p) m'
  Room-same = record {
    free' = r.free';
    held' = r.held';
    inv = r.inv;
    owns = r.holds;
    front = rw r.at r.head;
    bytes = rw r.at (r.same ∙ sym (append-nil _));
    others =
        λ q hq ne. ((r.others q hq ne).0, (r.others q hq ne).1, λ e. (r.others q hq ne).2 (cc));
  }

  Room-append :
      (src : Bytes) (n : ℕ)
      → n ≤ need
      → Grown m held b
          (slice src 0 n)
          (some p)
          (record m' { heap = update m'.heap p (some (appended r.chunk src n)) })
  Room-append src n fits = record {
    free' = r.free';
    held' = r.held';
    inv =
        Inv-write {c = r.chunk} p (appended r.chunk src n) r.inv r.holds r.at refl
          (omega (arith, r.head, r.fits));
    owns = r.holds;
    front = rw (update-eq m'.heap p (some (appended r.chunk src n)) p refl) r.head;
    bytes =
        rw (update-eq m'.heap p (some (appended r.chunk src n)) p refl) (
          contents-appended r.chunk src n r.head
          ∙ ap (λ (xs : List ℕ). xs ++ slice src 0 n) r.same);
    others = λ q hq ne. (
      (r.others q hq ne).0,
      update-ne m'.heap p (some (appended r.chunk src n)) q (λ e. (r.others q hq ne).2 (sym e))
          ∙ (r.others q hq ne).1,
      λ e. (r.others q hq ne).2 (cc),
    );
  }

-- What `write2buf` ends with: 0, and the bytes are appended; or -1, where they pass the largest
-- class, and nothing has changed.
abbrev pub WritePost : Mem → (ℕ → Bool) → Buffer → Bytes → ℕ → Buffer × Ret → Mem → Type 0
WritePost m held b src len (b', count n) m' = (n ≡ 0) × Grown m held b (slice src 0 len) b' m'
WritePost m held b src len (b', error) m' = (b' ≡ b) × (m' ≡ m) × (m_up < len + live m.heap b)

write_into-some :
    (b : Buffer) (src : Bytes) (len p : ℕ) (m : Mem) (c : Chunk)
    → m.heap p ≡ some c
    → c.length + len ≤ c.capacity
    → write_into b src len (some p) m
      ≡ ok ((some p, count 0), record m { heap = update m.heap p (some (appended c src len)) })
unfolding write_into
write_into-some b src len p m c at fits = rw (at, ◌>>=◌, le→leb _ _ fits)

write_into-WritePost :
    (X : Type 0) (m : Mem) (held : ℕ → Bool) (b : Buffer) (src : Bytes) (len : ℕ) (room : Option ℕ)
    (m' : Mem)
    → RoomPost m held b len room m'
    → Ensures X (WritePost m held b src len) (write_into b src len room m')
unfolding write_into
write_into-WritePost X m held b src len none m' (same, full) = (refl, same, full)
write_into-WritePost X m held b src len (some p) m' r =
    rw (write_into-some b src len p m' r.chunk r.at r.fits)
      (refl, Room-append r src len (omega arith))

abbrev pub IsError : Io → Type 0
IsError (done n) = ⊥
IsError again = Unit {0}
IsError failed = Unit {0}

-- How `read_from_fd` ends: with the bytes that `read` put there; or with -1, and then the buffer
-- holds what it held, and either `need` more bytes pass the largest class or `read` failed.
abbrev pub ReadPost : Mem → (ℕ → Bool) → Buffer → ℕ → Bytes → Io → Buffer × Ret → Mem → Type 0
ReadPost m held b need src io (b', count n) m' =
    (io ≡ done n) × Grown m held b (slice src 0 n) b' m'
ReadPost m held b need src io (b', error) m' =
    ((b' ≡ b) × (m' ≡ m) × (m_up < need + live m.heap b)) ⊎ (Grown m held b [] b' m' × IsError io)

-- What the kernel promises of `read` after FIONREAD has answered `need`.
abbrev pub Reads : ℕ → Io → Type 0
Reads need (done n) = (n ≡ 0) ⊎ (n ≡ need)
Reads need again = Unit {0}
Reads need failed = Unit {0}

read_into-some :
    (b : Buffer) (need : ℕ) (src : Bytes) (n p : ℕ) (m : Mem) (c : Chunk)
    → m.heap p ≡ some c
    → c.length + n ≤ c.capacity
    → (n ≡ 0) ⊎ (n ≡ need)
    → read_into b need src (done n) (some p) m
      ≡ ok ((some p, count n), record m { heap = update m.heap p (some (appended c src n)) })
unfolding read_into
read_into-some b need src n p m c at fits all = rw (at, ◌>>=◌, le→leb _ _ fits) (ground arith)

read_into-ReadPost :
    (X : Type 0) (m : Mem) (held : ℕ → Bool) (b : Buffer) (need : ℕ) (src : Bytes) (io : Io)
    (room : Option ℕ) (m' : Mem)
    → Reads need io
    → RoomPost m held b need room m'
    → Ensures X (ReadPost m held b need src io) (read_into b need src io room m')
unfolding read_into
read_into-ReadPost X m held b need src io none m' all (same, full) = inl (refl, same, full)
read_into-ReadPost X m held b need src (done n) (some p) m' all r =
    rw (read_into-some b need src n p m' r.chunk r.at (omega (arith, r.fits)) all)
      (refl, Room-append r src n (omega arith))
read_into-ReadPost X m held b need src again (some p) m' all r = inr (Room-same r, tt)
read_into-ReadPost X m held b need src failed (some p) m' all r = inr (Room-same r, tt)

module _ (sys : ℕ → Grant) {m : Mem} {free : ℕ → List ℕ} {held : ℕ → Bool}
    (v : Inv m free held) where
  -- `write2buf`, on a buffer whose bytes begin at offset 0 and with a sum of sizes that fits an
  -- `int`, appends exactly the bytes that it is given and returns 0; where they pass the largest
  -- class it returns -1 and changes nothing. The pool stays in good order, and no other chunk that
  -- is handed out changes. It stops the program only where the pool is exhausted, and never faults.
  pub write2buf-WritePost :
      (b : Buffer) (src : Bytes) (len : ℕ)
      → Owns held b
      → head_of m.heap b ≡ 0
      → len + live m.heap b < int_limit
      → Ensures
          (NoChunk sys m free (len + live m.heap b))
          (WritePost m held b src len)
          (write2buf sys b src len m)
  unfolding write2buf
  write2buf-WritePost b src len owned front small =
      Ensures-bind (NoChunk sys m free (len + live m.heap b)) (RoomPost m held b len)
        (WritePost m held b src len) (reserve sys b len) (write_into b src len) m
        (reserve-Ensures sys v b len owned front small)
        (write_into-WritePost (NoChunk sys m free (len + live m.heap b)) m held b src len)

  -- `read_from_fd`, where the kernel then hands over what FIONREAD announced or ends the stream,
  -- appends exactly the bytes that were read and returns their number; or it returns -1, where the
  -- bytes pass the largest class or `read` failed, and the buffer holds what it held. The pool stays in good order, and no other chunk that is handed out
  -- changes. It stops the program only where the pool is exhausted, and never faults.
  pub read_from_fd-ReadPost :
      (b : Buffer) (need : ℕ) (src : Bytes) (io : Io)
      → Owns held b
      → head_of m.heap b ≡ 0
      → need + live m.heap b < int_limit
      → Reads need io
      → Ensures
          (NoChunk sys m free (need + live m.heap b))
          (ReadPost m held b need src io)
          (read_from_fd sys b (some need) src io m)
  unfolding read_from_fd
  read_from_fd-ReadPost b need src io owned front small all =
      Ensures-bind (NoChunk sys m free (need + live m.heap b)) (RoomPost m held b need)
        (ReadPost m held b need src io) (reserve sys b need) (read_into b need src io) m
        (reserve-Ensures sys v b need owned front small)
        (λ room m'.
          read_into-ReadPost (NoChunk sys m free (need + live m.heap b)) m held b need src io room
            m' all)

-- Where FIONREAD answers 0 and `n` bytes arrive before the `read` of 4096 bytes, a buffer with less
-- than `n` bytes free is overrun.
pub read_overrun :
    (sys : ℕ → Grant) (m : Mem) (a n : ℕ) (src : Bytes) (c : Chunk)
    → m.heap a ≡ some c
    → c.head ≡ 0
    → c.length ≤ c.capacity
    → n ≤ m_low
    → c.capacity < c.length + n
    → read_from_fd sys (some a) (some 0) src (done n) m ≡ fault
unfolding read_from_fd reserve read_into
read_overrun sys m a n src c at front valid read_size over = rw (
  at,
  ◌>>=◌,
  front,
  not-ltb c.capacity (0 + c.length) (omega arith),
  at,
  ◌>>=◌,
  not-leb (c.length + n) c.capacity over,
)
