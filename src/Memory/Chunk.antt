-- ===== src/Memory/Chunk.antt =====
-- memory/chunk.h and memory/chunk.cpp. The four `int`s of the source that count bytes are natural
-- numbers here, and the `char *data` is the array `bytes`, of `capacity` bytes.
use high_performance_concurr.Base.{
  ℕ, ◌+◌, ◌-◌, ◌≤◌, ◌&&◌, List, Option, none, leb, ◌==◌, if◌then◌else◌, Outcome, ok, ◌>>◌, require,
}
use high_performance_concurr.Memory.Bytes.{Bytes, slice, blit}

-- `struct Chunk`. A pointer is an address in the heap of `Memory/Store`.
pub record Chunk : Type 0 where
  pub capacity : ℕ
  pub length : ℕ
  pub head : ℕ
  pub bytes : Bytes
  pub next : Option ℕ

-- `Chunk::Chunk`. `new char[size]` leaves the bytes as they are, so what they are is an argument.
abbrev pub make : ℕ → Bytes → Chunk
make size bytes = record { capacity = size; length = 0; head = 0; bytes = bytes; next = none }

unfoldable pub clear : Chunk → Chunk
clear c = record c { length = 0; head = 0 }

-- `Chunk::adjust`: the live bytes move to the front.
unfoldable pub adjust : Chunk → Outcome Chunk
adjust c = if c.head == 0 then ok c else if c.length == 0 then ok (record c { head = 0 }) else (do
  require (leb (c.head + c.length) c.capacity)
  ok (record c { bytes = blit c.bytes 0 c.bytes c.head c.length; head = 0 }))

-- `Chunk::copy`: the live bytes of `other`, from offset 0.
unfoldable pub copy : Chunk → Chunk → Outcome Chunk
copy c other = do
  require (leb (other.head + other.length) other.capacity && leb other.length c.capacity)
  ok (record c {
    bytes = blit c.bytes 0 other.bytes other.head other.length;
    head = 0;
    length = other.length;
  })

-- `Chunk::pop`. The source subtracts with no test; a `len` above `length` would leave a negative
-- length, which the next copy takes for a huge size, and is a fault here at once.
unfoldable pub pop : Chunk → ℕ → Outcome Chunk
pop c len = do
  require (leb len c.length)
  ok (record c { length = c.length - len; head = c.head + len })

-- `Chunk::print_data`: the bytes that it prints, `for (i = head; i < length; i++)`.
unfoldable pub print_data : Chunk → List ℕ
print_data c = slice c.bytes c.head (c.length - c.head)

-- The bytes that a chunk holds.
abbrev pub contents : Chunk → List ℕ
contents c = slice c.bytes c.head c.length

-- The live bytes lie inside the array.
pub record IsValid (c : Chunk) : Type 0 where
  pub within : c.head + c.length ≤ c.capacity
