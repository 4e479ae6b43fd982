-- ===== src/EventLoopThreadPool.antt =====
-- net/EventLoopThreadPool.h and net/EventLoopThreadPool.cc: the loops of the pool's threads, handed
-- out in turn. A loop is its address, and the parameter `start_loop` gives what `startLoop` of the
-- thread of number `i` returns; `EventLoopThread` fills it.
pub mod Rounds
mod Examples
use ouge_net_lib.Common.{
  ℕ, zero, suc, ◌+◌, ◌%◌, Bool, true, false, not, Option, none, some, List, [], ◌∷◌, ◌++◌, length,
  get_elem?, leb, ◌==◌, ◌&&◌, if◌then◌else◌, Result, ok, err, out_of_bounds, ◌>>=◌, ◌>>◌, assert,
}

pub record EventLoopThreadPool : Type 0 where
  pub base_loop : ℕ
  pub started : Bool
  pub num_threads : ℕ
  pub next : ℕ
  pub loops : List ℕ

unfoldable pub new_pool : ℕ → EventLoopThreadPool
new_pool base_loop = record {
  base_loop = base_loop;
  started = false;
  num_threads = 0;
  next = 0;
  loops = [];
}

-- `n` more threads, from number `i` on.
unfoldable pub start_loops : (ℕ → Result ℕ) → ℕ → ℕ → Result (List ℕ)
start_loops start_loop i zero = ok []
start_loops start_loop i (suc n) = do
  loop ← start_loop i
  rest ← start_loops start_loop (suc i) n
  ok (loop ∷ rest)

-- The pool, and whether the callback `cb` runs on the base loop.
unfoldable pub start :
    (ℕ → Result ℕ) → Bool → EventLoopThreadPool → Result (EventLoopThreadPool × Bool)
unfolding start_loops
start start_loop cb_set p = do
  assert (not p.started)
  loops ← start_loops start_loop 0 p.num_threads
  ok (record p { started = true; loops = p.loops ++ loops }, p.num_threads == 0 && cb_set)

abbrev pub is_empty : List ℕ → Bool
is_empty [] = true
is_empty (x ∷ xs) = false

-- `loops_[i]`
abbrev pub loop_at : Option ℕ → Result ℕ
loop_at none = err out_of_bounds
loop_at (some loop) = ok loop

unfoldable pub get_next_loop : EventLoopThreadPool → Result (ℕ × EventLoopThreadPool)
get_next_loop p = do
  assert p.started
  (if is_empty p.loops then ok (p.base_loop, p) else (do
    loop ← loop_at (get_elem? p.loops p.next)
    ok (loop, record p { next = if leb (length p.loops) (p.next + 1) then 0 else p.next + 1 })))

unfoldable pub get_loop_for_hash : ℕ → EventLoopThreadPool → Result ℕ
get_loop_for_hash hash_code p =
    if is_empty p.loops
    then ok p.base_loop
    else loop_at (get_elem? p.loops (hash_code % length p.loops))

unfoldable pub get_all_loops : EventLoopThreadPool → Result (List ℕ)
get_all_loops p = do assert p.started; ok (if is_empty p.loops then p.base_loop ∷ [] else p.loops)
