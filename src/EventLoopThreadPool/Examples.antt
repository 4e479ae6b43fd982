-- ===== src/EventLoopThreadPool/Examples.antt =====
-- A pool of three threads.
use ouge_net_lib.Common.{◌≡◌, refl, true, [], ◌∷◌, ok}
use ouge_net_lib.EventLoopThreadPool.{EventLoopThreadPool, get_next_loop}
use ouge_net_lib.EventLoopThreadPool.Rounds.{picks}

abbrev three : EventLoopThreadPool
three = record {
  base_loop = 1;
  started = true;
  num_threads = 3;
  next = 0;
  loops = 100 ∷ 101 ∷ 102 ∷ [];
}

one_round : picks 3 three ≡ ok (100 ∷ 101 ∷ 102 ∷ [], three)
unfolding get_next_loop picks
one_round = refl
