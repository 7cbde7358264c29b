-- ===== src/Threadpool/Start.antt =====
-- What the constructor makes.
use high_performance_concurr.Base.{
  ℕ, ◌+◌, ◌%◌, ◌^◌, ◌≤◌, ◌≡◌, true, [], arith, min, replicate, ok, le→leb,
}
use high_performance_concurr.Threadpool.{Threadpool, looping, make, add_thread, max_num}

module _ (Task : Type 0) where
  abbrev pub fresh : ℕ → Threadpool Task
  fresh size = record {
    tasks = [];
    run = true;
    idl_tnum = size;
    workers = replicate size looping;
    posting = [];
    notifies = 0;
  }

  pub make-fresh : (size : ℕ) → size ≤ max_num → make size ≡ ok (fresh size)
  unfolding make add_thread
  make-fresh size small =
      let all_fit : min size 64 ≡ size = omega arith in
      let no_wrap : (0 + size) % 2 ^ 32 ≡ size = omega arith in
      rw (le→leb size max_num small, all_fit, no_wrap)

  pub make_only :
      (size : ℕ) (p : Threadpool Task) → size ≤ max_num → make size ≡ ok p → p ≡ fresh size
  make_only size p small made = let same = make-fresh size small in cc (made, same)
