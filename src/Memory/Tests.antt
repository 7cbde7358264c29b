-- ===== src/Memory/Tests.antt =====
-- Small memories, and the theorems on them.
use high_performance_concurr.Base.{
  ℕ, ◌+◌, ◌≡◌, ◌≢◌, refl, Bool, true, false, Option, none, some, List, [], ◌∷◌, ok, fault, arith,
  inl, inr, ◌==◌, ◌||◌, if◌then◌else◌,
}
use high_performance_concurr.Memory.Chunk.{Chunk}
use high_performance_concurr.Memory.Store.{Mem, Grant, update}
use high_performance_concurr.Memory.Pool.{init, class_of, alloc_chunk, retrieve}
use high_performance_concurr.Memory.Pool.Classes.{IsClass, IsBest, class_of-IsBest}
use high_performance_concurr.Memory.Pool.Shape.{Holds}
use high_performance_concurr.Memory.Pool.Invariant.{Inv, Ensures}
use high_performance_concurr.Memory.Pool.Link.{nobody}
use high_performance_concurr.Memory.Pool.Alloc.{AllocPost, alloc_chunk-AllocPost}
use high_performance_concurr.Memory.Pool.Retrieve.{retrieve-Inv, put_back}
use high_performance_concurr.Memory.Pool.Init.{no_memory, init-Inv}
use high_performance_concurr.Memory.Buffer.{done, write2buf, read_from_fd, write2fd}
use high_performance_concurr.Memory.Buffer.Room.{NoChunk}
use high_performance_concurr.Memory.Buffer.Append.{
  WritePost, ReadPost, write2buf-WritePost, read_from_fd-ReadPost, read_overrun,
}
use high_performance_concurr.Memory.Buffer.Consume.{Sent, write2fd-Sent}

-- A system that has memory.
abbrev pub sys : ℕ → Grant
sys a = record { granted = true; garbage = λ i. 0 }

-- The chunk at address 0 is handed out and holds the bytes 0, 1 and 2; every list is empty.
abbrev pub three_bytes : Chunk
three_bytes = record { capacity = 4096; length = 3; head = 0; bytes = λ i. i; next = none }

abbrev pub is_class : ℕ → Bool
is_class k =
    (k == 4096) || (k == 16384) || (k == 65536) || (k == 262144) || (k == 1048576) || (k == 4194304)

abbrev pub small_heap : ℕ → Option Chunk
small_heap a = if a == 0 then some three_bytes else none

abbrev pub small : Mem
small = record {
  heap = small_heap;
  brk = 1;
  pool = λ k. if is_class k then some none else none;
  total_kb = 4;
  left_kb = 0;
}

abbrev pub first_held : ℕ → Bool
first_held a = a == 0

abbrev pub no_lists : ℕ → List ℕ
no_lists k = []

small-lists : (k : ℕ) (p : Option ℕ) → small.pool k ≡ some p → IsClass k × (p ≡ none)
small-lists k p e = ground arith

small-owned : (a : ℕ) → first_held a ≡ true → Holds small.heap a
small-owned a h = let first : (a == 0) ≡ true = h in (three_bytes, rw first, inl refl, omega arith)

pub small-Inv : Inv small no_lists first_held
small-Inv = record {
  shape = record { lists = small-lists; unused = λ b above. ground arith; owned = small-owned };
  full = λ k c. ground arith;
  left = refl;
  total = refl;
  limit = omega arith;
}

class_of-IsBest_example : IsBest 5000 (class_of 5000)
class_of-IsBest_example = class_of-IsBest 5000

init-Inv_example :
    (m' : Mem) × (free : ℕ → List ℕ) × (init sys no_memory ≡ ok (tt, m'))
    × Inv m' free nobody
    × (m'.total_kb ≡ 124160)
    × (m'.left_kb ≡ 124160)
init-Inv_example = init-Inv sys (λ a. refl)

alloc_chunk_example :
    (choice : Option ℕ) × IsBest 5000 choice
    × AllocPost sys small-Inv choice (alloc_chunk sys 5000 small)
alloc_chunk_example = alloc_chunk-AllocPost sys small-Inv 5000

retrieve-Inv_example :
    (c : Chunk) × (m' : Mem) × (small.heap 0 ≡ some c)
    × (retrieve 0 small ≡ ok (tt, m'))
    × Inv m' (update no_lists c.capacity (0 ∷ no_lists c.capacity)) (update first_held 0 false)
    × ((b : ℕ) → b ≢ 0 → m'.heap b ≡ small.heap b)
retrieve-Inv_example = retrieve-Inv small-Inv 0 refl

write2buf-WritePost_example :
    Ensures
      (NoChunk sys small no_lists 8)
      (WritePost small first_held (some 0) (λ i. i + 7) 5)
      (write2buf sys (some 0) (λ i. i + 7) 5 small)
write2buf-WritePost_example =
    write2buf-WritePost sys small-Inv (some 0) (λ i. i + 7) 5 refl refl (omega arith)

read_from_fd-ReadPost_example :
    Ensures
      (NoChunk sys small no_lists 5003)
      (ReadPost small first_held (some 0) 5000 (λ i. i) (done 5000))
      (read_from_fd sys (some 0) (some 5000) (λ i. i) (done 5000) small)
read_from_fd-ReadPost_example =
    read_from_fd-ReadPost sys small-Inv (some 0) 5000 (λ i. i) (done 5000) refl refl (omega arith)
      (inr refl)

read_overrun_example : read_from_fd sys (some 0) (some 0) (λ i. i) (done 4094) small ≡ fault
read_overrun_example =
    read_overrun sys small 0 4094 (λ i. i) three_bytes refl refl (omega arith) (omega arith)
      (omega arith)

write2fd-Sent_example : Sent small no_lists first_held 0 (done 2) (write2fd (some 0) (done 2) small)
write2fd-Sent_example = write2fd-Sent small-Inv 0 refl (done 2) refl (omega arith)

-- The chunk has been put back.
abbrev one_free : Mem
one_free = put_back small 0 three_bytes none
