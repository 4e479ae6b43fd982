-- ===== src/CountDownLatch/Examples.antt =====
-- Two calls of `wait` around two of `countDown`, on a latch of base/CountDownLatch.h.
use ouge_net_lib.Common.{◌≡◌, List, [], ◌∷◌}
use ouge_net_lib.CountDownLatch.{pos, new_latch}
use ouge_net_lib.CountDownLatch.Releases.{Event, waits, counts_down, run, minus, new_latch-run}

abbrev two_of_each : List Event
two_of_each = waits ∷ counts_down ∷ waits ∷ counts_down ∷ []

new_latch-run_example :
    ((run two_of_each (new_latch (pos 2))).0.count ≡ minus (pos 2) two_of_each)
    × ((run two_of_each (new_latch (pos 2))).1 ≡ 2)
    × ((run two_of_each (new_latch (pos 2))).0.asleep ≡ 0)
new_latch-run_example = new_latch-run (pos 2) two_of_each
