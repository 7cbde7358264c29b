-- ===== src/Memory/Buffer/Room.antt =====
-- What a buffer holds, and what it means that a buffer has room.
use high_performance_concurr.Base.{
  ℕ, ◌+◌, ◌≤◌, ◌<◌, ◌≡◌, ◌≢◌, Bool, true, Option, none, some, List, [],
}
use high_performance_concurr.Memory.Chunk.{Chunk, contents}
use high_performance_concurr.Memory.Store.{Mem, Grant}
use high_performance_concurr.Memory.Pool.{m_up}
use high_performance_concurr.Memory.Pool.Classes.{IsBest}
use high_performance_concurr.Memory.Pool.Invariant.{Inv}
use high_performance_concurr.Memory.Pool.Handout.{Exhausted}
use high_performance_concurr.Memory.Buffer.{Buffer}

-- The chunk of the buffer is handed out.
abbrev pub Owns : (ℕ → Bool) → Buffer → Type 0
Owns held none = Unit {0}
Owns held (some a) = held a ≡ true

abbrev pub bytes_at : Option Chunk → List ℕ
bytes_at none = []
bytes_at (some c) = contents c

-- What a buffer holds.
abbrev pub contents_of : (ℕ → Option Chunk) → Buffer → List ℕ
contents_of heap none = []
contents_of heap (some a) = bytes_at (heap a)

abbrev pub live_at : Option Chunk → ℕ
live_at none = 0
live_at (some c) = c.length

-- How many bytes a buffer holds.
abbrev pub live : (ℕ → Option Chunk) → Buffer → ℕ
live heap none = 0
live heap (some a) = live_at (heap a)

abbrev pub head_at : Option Chunk → ℕ
head_at none = 0
head_at (some c) = c.head

-- Where the live bytes begin.
abbrev pub head_of : (ℕ → Option Chunk) → Buffer → ℕ
head_of heap none = 0
head_of heap (some a) = head_at (heap a)

-- The buffer has room at `p`: its chunk has `need` bytes free behind the live ones, which are those
-- of before. The chunks that others hold are as they were, and are other chunks.
pub record Room (m : Mem) (held : ℕ → Bool) (b : Buffer) (need p : ℕ) (m' : Mem) : Type 0 where
  pub free' : ℕ → List ℕ
  pub held' : ℕ → Bool
  pub chunk : Chunk
  pub inv : Inv m' free' held'
  pub holds : held' p ≡ true
  pub at : m'.heap p ≡ some chunk
  pub head : chunk.head ≡ 0
  pub fits : chunk.length + need ≤ chunk.capacity
  pub same : contents chunk ≡ contents_of m.heap b
  pub others :
      (q : ℕ) → held q ≡ true → b ≢ some q → (held' q ≡ true) × (m'.heap q ≡ m.heap q) × (p ≢ q)

-- No room: the bytes pass the largest class, and nothing has changed.
abbrev pub RoomPost : Mem → (ℕ → Bool) → Buffer → ℕ → Option ℕ → Mem → Type 0
RoomPost m held b need none m' = (m' ≡ m) × (m_up < need + live m.heap b)
RoomPost m held b need (some p) m' = Room m held b need p m'

-- The class of `size` is exhausted.
abbrev pub NoChunk : (ℕ → Grant) → Mem → (ℕ → List ℕ) → ℕ → Type 0
NoChunk sys m free size = (k : ℕ) × IsBest size (some k) × Exhausted sys m free k
