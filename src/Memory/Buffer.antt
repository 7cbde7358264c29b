-- ===== src/Memory/Buffer.antt =====
-- memory/data_buf.h and memory/data_buf.cpp: `BufferBase`, `InputBuffer` and `OutputBuffer`. What
-- the kernel answers to `ioctl`, `read` and `write` is an argument of each function.
pub mod Room
pub mod Enlarge
pub mod Reserve
pub mod Append
pub mod Consume
pub mod Pop
use high_performance_concurr.Base.{
  ℕ, ◌+◌, ◌-◌, ◌^◌, Option, none, some, List, [], ltb, leb, ◌==◌, if◌then◌else◌, check, require,
  ◌||◌,
}
use high_performance_concurr.Memory.Bytes.{Bytes, slice, blit}
use high_performance_concurr.Memory.Chunk
use high_performance_concurr.Memory.Chunk.{Chunk}
use high_performance_concurr.Memory.Store.{Grant, M, pure, abort, ◌>>=◌, ◌>>◌, lift, load, store}
use high_performance_concurr.Memory.Pool.{alloc_chunk, retrieve}

-- `BufferBase::data_buf`: null, or the address of the one chunk that the buffer holds.
abbrev pub Buffer : Type 0
Buffer = Option ℕ

-- An `int` that is -1 on an error.
pub data Ret : Type 0 where
  count : ℕ → Ret
  error : Ret

-- How `read` or `write` ends, once no signal interrupts it (the loops repeat the call on EINTR): a
-- number of bytes, EAGAIN, or another error.
pub data Io : Type 0 where
  done : ℕ → Io
  again : Io
  failed : Io

-- `BufferBase::length`.
unfoldable pub length : Buffer → M ℕ
length none = pure 0
length (some a) = do c ← load a; pure c.length

-- `BufferBase::pop`.
unfoldable pub pop : Buffer → ℕ → M Buffer
pop none len = abort
pop (some a) len = do
  c ← load a
  lift (check (leb len c.length))
  c ← lift (Chunk.pop c len)
  store a c
  if c.length == 0 then (do retrieve a; pure none) else pure (some a)

-- `BufferBase::clear`, and the destructor.
unfoldable pub clear : Buffer → M Buffer
clear none = pure none
clear (some a) = do retrieve a; pure none

-- `InputBuffer::adjust`.
unfoldable pub adjust : Buffer → M (Unit {0})
adjust none = pure tt
adjust (some a) = do c ← load a; c ← lift (Chunk.adjust c); store a c

-- `InputBuffer::get_from_buf`: a pointer, as an array and an offset.
unfoldable pub get_from_buf : Buffer → M (Option (Bytes × ℕ))
get_from_buf none = pure none
get_from_buf (some a) = do c ← load a; pure (some (c.bytes, c.head))

abbrev pub int_limit : ℕ
int_limit = 2 ^ 31

-- The end of `write2buf`: -1 where there is no room, and otherwise the bytes go behind the live ones.
unfoldable pub write_into : Buffer → Bytes → ℕ → Option ℕ → M (Buffer × Ret)
write_into b src len none = pure (b, error)
write_into b src len (some a) = do
  c ← load a
  lift (require (leb (c.length + len) c.capacity))
  store a (record c { bytes = blit c.bytes c.length src 0 len; length = c.length + len })
  pure (some a, count 0)

-- The end of `read_from_fd`: -1 where there is no room, and otherwise `read` puts what it reads
-- behind the live bytes.
unfoldable pub read_into : Buffer → ℕ → Bytes → Io → Option ℕ → M (Buffer × Ret)
read_into b need src io none = pure (b, error)
read_into b need src (done n) (some a) = do
  c ← load a
  lift (require (leb (c.length + n) c.capacity))
  lift (check (n == 0 || need == 0 || n == need))
  store a (record c { bytes = blit c.bytes c.length src 0 n; length = c.length + n })
  pure (some a, count n)
read_into b need src again (some a) = pure (some a, error)
read_into b need src failed (some a) = pure (some a, error)

module _ (sys : ℕ → Grant) where
  -- The larger chunk that replaces a full one.
  unfoldable pub enlarge : ℕ → ℕ → M (Option ℕ)
  enlarge a size = do
    fresh ← alloc_chunk sys size
    elim fresh [
      | none ↦ pure none
      | some p ↦ do
        new_buf ← load p
        data_buf ← load a
        new_buf ← lift (Chunk.copy new_buf data_buf)
        store p new_buf
        retrieve a
        pure (some p)
    ]

  -- What `read_from_fd` and `write2buf` begin with: the chunk that has room for `need` more bytes,
  -- or null. `capacity - length < need` stands here without the difference.
  unfoldable pub reserve : Buffer → ℕ → M (Option ℕ)
  reserve none need = alloc_chunk sys need
  reserve (some a) need = do
    c ← load a
    lift (check (c.head == 0))
    if ltb c.capacity (need + c.length)
        then (do lift (require (ltb (need + c.length) int_limit)); enlarge a (need + c.length))
        else pure (some a)

  -- `OutputBuffer::write2buf`, of the bytes `src`, …, `src + len - 1`.
  unfoldable pub write2buf : Buffer → Bytes → ℕ → M (Buffer × Ret)
  write2buf b src len = do room ← reserve b len; write_into b src len room

  -- `InputBuffer::read_from_fd`. `ready` is the answer of `ioctl(fd, FIONREAD, …)`, none for an
  -- error; `io` ends the call of `read`, and `src` is what it reads.
  unfoldable pub read_from_fd : Buffer → Option ℕ → Bytes → Io → M (Buffer × Ret)
  read_from_fd b none src io = pure (b, error)
  read_from_fd b (some need) src io = do room ← reserve b need; read_into b need src io room

-- `OutputBuffer::write2fd`; the list is what the kernel took.
unfoldable pub write2fd : Buffer → Io → M (Ret × List ℕ)
write2fd none io = abort
write2fd (some a) (done n) = do
  c ← load a
  lift (check (c.head == 0))
  if n == 0 then pure (count 0, []) else (do
    popped ← lift (Chunk.pop c n)
    adjusted ← lift (Chunk.adjust popped)
    store a adjusted
    pure (count n, slice c.bytes 0 n))
write2fd (some a) again = do c ← load a; lift (check (c.head == 0)); pure (count 0, [])
write2fd (some a) failed = do c ← load a; lift (check (c.head == 0)); pure (error, [])
