-- ===== src/ThreadPool/Examples.antt =====
-- Two threads of base/ThreadPool.cc, one of them asleep.
use ouge_net_lib.Common.{
  ℕ, ◌*◌, ◌≤◌, ◌≡◌, refl, ◌⊎◌, inr, true, false, some, List, [], ◌∷◌, arith, ok,
}
use ouge_net_lib.ThreadPool.{
  at_test, at_take, asleep, in_task, ended, ThreadPool, new_thread_pool, start, stop, is_full,
  enter, run, take, work,
}
use ouge_net_lib.ThreadPool.Runs.{submits, works, act, begun, Run, here, next, Run-tasks, IsBounded}
use ouge_net_lib.ThreadPool.Ends
use ouge_net_lib.ThreadPool.Ends.{Counted, Counted-ends}
use ouge_net_lib.ThreadPool.Wakes.{start-begun}

abbrev two_threads : ThreadPool
two_threads = record {
  threads = asleep ∷ at_take ∷ [];
  callers = [];
  queue = [];
  max_queue_size = 2;
  running = true;
}

abbrev busy : ThreadPool
busy = record {
  threads = at_take ∷ in_task 5 ∷ [];
  callers = [];
  queue = 6 ∷ [];
  max_queue_size = 2;
  running = true;
}

works_once : Run two_threads busy (5 ∷ 6 ∷ []) (5 ∷ [])
unfolding run enter is_full work take
works_once = next (next (next here (submits 0 5) refl) (submits 0 6) refl) (works 0 1) refl

Run-tasks_example : ◌≡◌ {A = List ℕ} (5 ∷ 6 ∷ []) (5 ∷ 6 ∷ []) × IsBounded busy
Run-tasks_example = Run-tasks (inr (omega arith)) works_once

-- A pool with one thread that sleeps.
abbrev idle : ThreadPool
idle = record {
  threads = asleep ∷ [];
  callers = [];
  queue = [];
  max_queue_size = 0;
  running = true;
}

abbrev finished : ThreadPool
finished = record {
  threads = ended ∷ [];
  callers = [];
  queue = [];
  max_queue_size = 0;
  running = false;
}

finishes : Counted (stop idle) finished 2
unfolding stop work take
finishes = Ends.next (Ends.next Ends.here (works 0 0) refl) (works 0 0) refl

Counted-ends_example :
    (2 ≤ 3 * 1)
    × ((true ≡ true) ⊎ ((i : ℕ) × (r : ThreadPool) × (act (works 0 i) finished ≡ some r)))
Counted-ends_example = Counted-ends idle finishes

abbrev started : ThreadPool
started = record new_thread_pool { threads = at_test ∷ at_test ∷ []; running = true }

-- Both threads sleep, and a task wakes the one of number 1.
abbrev woken_up : ThreadPool
woken_up = record started { threads = asleep ∷ at_take ∷ []; queue = 7 ∷ [] }

wakes_up : Run started woken_up (7 ∷ []) []
unfolding run enter is_full work take new_thread_pool
wakes_up =
    next
      (next (next (next (next here (works 0 0) refl) (works 0 0) refl) (works 0 1) refl) (works 0 1)
        refl)
      (submits 1 7) refl

start_two : start 2 false new_thread_pool ≡ ok (started, false)
unfolding start new_thread_pool
start_two = refl

start-begun_example :
    (i : ℕ) × (r : ThreadPool) × (act (works 0 i) woken_up ≡ some r)
    × (begun (works 0 i) woken_up ≡ 7 ∷ [])
    × (r.queue ≡ [])
start-begun_example = start-begun 2 false new_thread_pool start_two wakes_up refl refl
