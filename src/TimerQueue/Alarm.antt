-- ===== src/TimerQueue/Alarm.antt =====
-- How `resetTimerfd` sets the descriptor, and the constructor and destructor of the queue.
use ouge_net_lib.Common.{
  ℕ, ◌+◌, ◌-◌, ◌*◌, ◌/◌, ◌%◌, ◌<◌, ◌≡◌, refl, Bool, false, List, [], ◌∷◌, ltb, max, arith,
  if◌then◌else◌,
}
use ouge_net_lib.Timestamp.{micro_seconds_per_second}
use ouge_net_lib.TimerQueue.{Timer, TimerQueue, delete_timer}
use ouge_net_lib.TimerQueue.Valid.{IsValid}

pub record Timespec : Type 0 where
  pub tv_sec : ℕ
  pub tv_nsec : ℕ

-- At least 100 microseconds: a time in the past gives a difference below 0 there and 0 here.
unfoldable pub how_much_time_from_now : ℕ → ℕ → Timespec
how_much_time_from_now when now =
    let difference = when - now in
    let microseconds = if ltb difference 100 then 100 else difference in
    record {
      tv_sec = microseconds / micro_seconds_per_second;
      tv_nsec = microseconds % micro_seconds_per_second * 1000;
    }

-- `s_numCreated_` is shared by all queues.
unfoldable pub new_timer_queue : ℕ → (ℕ → Timer) → (ℕ → Bool) → TimerQueue
new_timer_queue num_created heap alive = record {
  heap = heap;
  alive = alive;
  num_created = num_created;
  timers = [];
  active_timers = [];
  calling_expired_timers = false;
  canceling_timers = [];
}

-- The loop of the destructor.
unfoldable pub delete_all : List (ℕ × ℕ) → TimerQueue → TimerQueue
unfolding delete_timer
delete_all [] q = q
delete_all (e ∷ es) q = delete_all es (delete_timer e.1 q)

-- The descriptor is set to a time that `timerfd_settime` accepts, with fewer than 10^9 nanoseconds,
-- and that is the time left until `when`, or 100 microseconds where less is left.
pub how_much_time_from_now_lem :
    (when now : ℕ)
    → ((how_much_time_from_now when now).tv_sec * 1000000000
          + (how_much_time_from_now when now).tv_nsec
        ≡ 1000 * max 100 (when - now))
      × ((how_much_time_from_now when now).tv_nsec < 1000000000)
unfolding how_much_time_from_now
how_much_time_from_now_lem when now = ground arith

pub new_timer_queue-IsValid :
    (num_created : ℕ) (heap : ℕ → Timer) (alive : ℕ → Bool)
    → IsValid (new_timer_queue num_created heap alive)
unfolding new_timer_queue
new_timer_queue-IsValid num_created heap alive = record {
  timed = λ t p h. ground (arith, h);
  listed = λ p s h. ground (arith, h);
  timers_sorted = tt;
  active_sorted = tt;
  sizes = refl;
}
