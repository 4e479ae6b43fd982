-- ===== src/EventLoop/Examples.antt =====
-- Another thread queues a functor while the loop polls; two channels are active; and a timer is added.
use ouge_net_lib.Common.{◌+◌, ◌<◌, ◌≡◌, refl, inl, [], ◌∷◌, ◌++◌, arith, true, false}
use ouge_net_lib.EventLoop.{new_loop, push_functor, queue_in_loop}
use ouge_net_lib.EventLoop.Wakeups.{
  System, IsValid, Run, here, next, act, begins_loop, queues_elsewhere, waiting, Run-order,
  Run-wakes,
}
use ouge_net_lib.Common.{ℕ, none, some, List, ◌==◌, if◌then◌else◌, ok, Bool, not, inr}
use ouge_net_lib.Channel.{Channel, added, new, enable_writing, disable_writing, Change}
use ouge_net_lib.Poller
use ouge_net_lib.Poller.{Poller, has_channel, change_channel, remove, update_by, set_index, update}
use ouge_net_lib.Poller.Valid
use ouge_net_lib.Poller.Kernel.{list_kernel}
use ouge_net_lib.EventLoop.Channels.{Events, handle_active, is_active}
use ouge_net_lib.Common.{leb}
use ouge_net_lib.Common.Sets.{member, is_pair}
use ouge_net_lib.Timestamp.{add_time}
use ouge_net_lib.TimerQueue
use ouge_net_lib.TimerQueue.{TimerQueue, Effect}
use ouge_net_lib.TimerQueue.Valid.{Agree}
use ouge_net_lib.TimerQueue.Expiry.{expired_at}
use ouge_net_lib.EventLoop.Timers.{run_after, run_after-expired_at}
use ouge_net_lib.EventLoop.Turns.{requests, AreKnown, handle_active-IsValid}

abbrev idle : System
idle = record {
  loop = record {
    looping = false;
    quit_set = false;
    event_handling = false;
    calling_pending_functors = false;
    pending_functors = [];
    functors = [];
    wakeups = 0;
  };
  owed = 0;
}

idle-IsValid : IsValid idle
idle-IsValid = ground arith

abbrev pushed : System
pushed = act (queues_elsewhere 7) (act begins_loop idle)

polling : Run idle pushed (7 ∷ []) []
polling = next (next here begins_loop (refl, refl)) (queues_elsewhere 7) tt

Run-wakes_example : 0 < 0 + 1
unfolding push_functor
Run-wakes_example = Run-wakes idle-IsValid polling refl refl (inl (omega arith))

Run-order_example : IsValid pushed × (waiting idle ++ 7 ∷ [] ≡ [] ++ waiting pushed)
Run-order_example = Run-order idle-IsValid polling

-- Before `loop` runs, its own thread queues a functor without a wake-up.
queued_early : queue_in_loop true 7 new_loop ≡ record new_loop { pending_functors = 7 ∷ [] }
unfolding queue_in_loop new_loop
queued_early = refl

-- Two channels wait to read; the first then waits to write, too, and the second removes itself.
abbrev reads_from : ℕ → Channel
reads_from fd = record {
  fd = fd;
  events = 3;
  revents = 1;
  index = added;
  log_hup = true;
  tied = false;
  event_handling = false;
  added_to_loop = true;
}

abbrev polled : Events list_kernel
polled = record {
  poller = record {
    channels = λ fd. if fd == 5 then some 100 else if fd == 6 then some 200 else none;
    store = λ c.
        if c == 100
        then reads_from 5
        else if c == 200
        then reads_from 6
        else record (reads_from 7) { index = new };
    kernel = λ fd. if fd == 5 then some (3, 100) else if fd == 6 then some (3, 200) else none;
    complaints = 0;
  };
  event_handling = false;
  active_channels = [];
  current_active_channel = none;
}

abbrev asks : ℕ → List (Change × ℕ)
asks c = if c == 100 then (enable_writing, 100) ∷ [] else (disable_writing, 100) ∷ []

-- The second changes the first, which stays, before it leaves.
abbrev leaves : ℕ → Bool
leaves c = c == 200

polled-IsValid : Poller.Valid.IsValid polled.poller
polled-IsValid = record {
  mapped = λ fd c h. ground (arith, h);
  indexed = λ c h. ground (arith, h);
  watched = λ fd. ground arith;
  quiet = refl;
}

both_known : AreKnown polled.poller (100 ∷ 200 ∷ [])
unfolding has_channel
both_known = (refl, (refl, tt))

one_known : has_channel 100 polled.poller ≡ true
unfolding has_channel
one_known = refl

handle_active-IsValid_example :
    (r : Events list_kernel) × (handle_active
        (λ c. requests c (asks c) (leaves c))
        (100 ∷ 200 ∷ [])
        polled
      ≡ ok (r, true ∷ true ∷ []))
    × Poller.Valid.IsValid r.poller
    × (r.event_handling ≡ false)
    × ((d : ℕ)
        → has_channel d r.poller
          ≡ (if is_active d (100 ∷ 200 ∷ []) then not (leaves d) else has_channel d polled.poller))
handle_active-IsValid_example =
    handle_active-IsValid asks leaves (100 ∷ 200 ∷ []) polled polled-IsValid ((refl, tt), (tt, tt))
      both_known (((one_known, inl refl), tt), (((one_known, inr refl), tt), tt))

abbrev no_timers : TimerQueue
no_timers = record {
  heap = λ p. record { expiration = 0; interval = 0; repeat = false; sequence = 0 };
  alive = λ p. false;
  num_created = 0;
  timers = [];
  active_timers = [];
  calling_expired_timers = false;
  canceling_timers = [];
}

no_timers-IsValid : TimerQueue.Valid.IsValid no_timers
no_timers-IsValid = record {
  timed = λ t p h. ground (arith, h);
  listed = λ p s h. ground (arith, h);
  timers_sorted = tt;
  active_sorted = tt;
  sizes = refl;
}

run_after-expired_at_example :
    (r : TimerQueue) × (es : List Effect) × (run_after 8 50 100 no_timers ≡ ok (r, es))
    × TimerQueue.Valid.IsValid r
    × (member (add_time 100 50, 8) (expired_at 149 r) ≡ leb (add_time 100 50) 149)
    × ((x : ℕ × ℕ)
        → is_pair x (add_time 100 50, 8) ≡ false
        → member x (expired_at 149 r) ≡ member x (expired_at 149 no_timers))
run_after-expired_at_example =
    run_after-expired_at 8 50 100 149 no_timers no_timers-IsValid refl refl
