-- ===== src/Net/Echo/Message.antt =====
-- `echo_message_cb` takes the whole input.
use high_performance_concurr.Base.{
  ℕ, ◌≡◌, ◌≢◌, refl, ap, ◌∙◌, subst, Bool, true, Option, none, some, List, [], ◌∷◌, length, drop,
  Outcome, ok, arith,
}
use high_performance_concurr.Memory.Bytes.{Bytes, slice, slice-congr}
use high_performance_concurr.Memory.Store.{Mem, ◌>>=◌}
use high_performance_concurr.Memory.Chunk.{Chunk, contents}
use high_performance_concurr.Memory.Pool.Invariant.{Inv}
use high_performance_concurr.Memory.Buffer
use high_performance_concurr.Memory.Buffer.{Buffer}
use high_performance_concurr.Memory.Buffer.Room.{contents_of, live}
use high_performance_concurr.Memory.Buffer.Pop.{pop-Shrunk}
use high_performance_concurr.Net.Connection.{Connection}
use high_performance_concurr.Net.Connection.Stream.{length-contents, length-live}
use high_performance_concurr.Net.Echo.{copied, take_message}

drop_all : {A : Type 0} (xs : List A) → drop (length xs) xs ≡ []
drop_all [] = refl
drop_all (x ∷ xs) = drop_all xs

-- Behind `take_message` the input buffer is null, and the message is what it held.
pub record Taken (m : Mem) (held : ℕ → Bool) (a : ℕ) (conn : Connection)
    (r : Outcome ((Connection × Bytes × ℕ) × Mem)) : Type 0 where
  pub text : Bytes
  pub len : ℕ
  pub after : Mem
  pub free' : ℕ → List ℕ
  pub held' : ℕ → Bool
  pub result : r ≡ ok ((record conn { ibuf = none }, text, len), after)
  pub inv : Inv after free' held'
  pub many : len ≡ live m.heap (some a)
  pub message : slice text 0 len ≡ contents_of m.heap (some a)
  pub others : (q : ℕ) → held q ≡ true → q ≢ a → (held' q ≡ true) × (after.heap q ≡ m.heap q)

copied-contents : (c : Chunk) → slice (copied (some (c.bytes, c.head))) 0 c.length ≡ contents c
copied-contents c =
    slice-congr (copied (some (c.bytes, c.head))) c.bytes 0 c.head c.length
      (λ k below. ap c.bytes (omega arith))

take_message-eq :
    (a n : ℕ) (conn : Connection) (msg : Option (Bytes × ℕ)) (m m' : Mem)
    → conn.ibuf ≡ some a
    → Buffer.get_from_buf (some a) m ≡ ok (msg, m)
    → Buffer.length (some a) m ≡ ok (n, m)
    → Buffer.pop (some a) n m ≡ ok (none, m')
    → take_message conn m ≡ ok ((record conn { ibuf = none }, copied msg, n), m')
unfolding take_message Buffer.adjust
take_message-eq a n conn msg m m' e got measured popped =
    let got_it = ap (λ b. Buffer.get_from_buf b m) e ∙ got in
    let counted = ap (λ b. Buffer.length b m) e ∙ measured in
    let shrunk = ap (λ b. Buffer.pop b n m) e ∙ popped in
    rw (take_message, got_it, ◌>>=◌, counted, counted, shrunk, Buffer.adjust)

got_from_buf :
    (a : ℕ) (c : Chunk) (m : Mem)
    → m.heap a ≡ some c
    → Buffer.get_from_buf (some a) m ≡ ok (some (c.bytes, c.head), m)
unfolding Buffer.get_from_buf
got_from_buf a c m here = rw (here, ◌>>=◌)

pub take_message-Taken :
    {m : Mem} {free : ℕ → List ℕ} {held : ℕ → Bool} (v : Inv m free held) (a : ℕ)
    (conn : Connection)
    → held a ≡ true
    → conn.ibuf ≡ some a
    → Taken m held a conn (take_message conn m)
take_message-Taken {m} {free} {held} v a conn owned e =
    let (c, here, _, _) = v.shape.owned a owned in
    let n : ℕ = live m.heap (some a) in
    let all = pop-Shrunk v a owned n (omega arith) in
    let nothing : drop n (contents_of m.heap (some a)) ≡ [] =
      subst (λ k. drop k (contents_of m.heap (some a)) ≡ []) (length-contents a m.heap)
        (drop_all (contents_of m.heap (some a))) in
    let null : all.b' ≡ none = all.null_iff.1 nothing in
    record {
      text = copied (some (c.bytes, c.head));
      len = n;
      after = all.after;
      free' = all.free';
      held' = all.held';
      result =
          take_message-eq a n conn (some (c.bytes, c.head)) m all.after e (got_from_buf a c m here)
            (length-live a owned v) (all.result ∙ ap (λ b. ok (b, all.after)) null);
      inv = all.inv;
      many = refl;
      message = rw here (copied-contents c);
      others = all.others;
    }
