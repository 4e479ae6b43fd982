-- ===== src/TimerQueue.antt =====
-- net/TimerQueue.h, net/TimerQueue.cc, net/Timer.h, net/Timer.cc and net/TimerId.h: the timers of a
-- loop. A `Timer *` is its address, and `heap` holds the objects that are not deleted. The two sets
-- are ordered sets of pairs. All functions run in the loop's thread.
pub mod Call
pub mod Valid
pub mod Requests
pub mod Expiry
pub mod Rearm
pub mod Reset
pub mod Reading
pub mod Alarm
mod Examples
use ouge_net_lib.Common.{
  ℕ, zero, suc, ◌+◌, ◌-◌, ◌*◌, ◌/◌, ◌%◌, ◌^◌, Bool, true, false, ◌&&◌, not, Option, none, some,
  List, [], ◌∷◌, ◌++◌, length, ltb, ◌==◌, if◌then◌else◌, Result, ok, err, dangling_pointer, ◌>>=◌,
  ◌>>◌, assert,
}
use ouge_net_lib.Common.Sets.{member, insert, erase, in_front, from_bound}
use ouge_net_lib.Timestamp.{is_valid, invalid, add_time, micro_seconds_per_second}

-- `interval` is what `addTime` adds for `interval_`, in microseconds; `repeat` is `interval_ > 0.0`.
pub record Timer : Type 0 where
  pub expiration : ℕ
  pub interval : ℕ
  pub repeat : Bool
  pub sequence : ℕ

-- `alive` says where an object is.
pub record TimerQueue : Type 0 where
  pub heap : ℕ → Timer
  pub alive : ℕ → Bool
  pub num_created : ℕ
  pub timers : List (ℕ × ℕ)  -- by expiration and address
  pub active_timers : List (ℕ × ℕ)  -- by address and sequence
  pub calling_expired_timers : Bool
  pub canceling_timers : List (ℕ × ℕ)

-- What a call does outside: the expiration that `resetTimerfd` is given, and the timer that runs.
pub data Effect : Type 0 where
  reset_timerfd : ℕ → Effect
  run_timer : ℕ → Effect

abbrev pub put {ℓ} : {A : Type ℓ} → (ℕ → A) → ℕ → A → ℕ → A
put f k v j = if k == j then v else f j

-- `timer->`
unfoldable pub deref : ℕ → TimerQueue → Result Timer
deref p q = if q.alive p then ok (q.heap p) else err dangling_pointer

-- `new Timer`, at the address `p`
unfoldable pub new_timer : ℕ → ℕ → ℕ → Bool → TimerQueue → TimerQueue
new_timer p when interval repeat q = record q {
  num_created = q.num_created + 1;
  alive = put q.alive p true;
  heap = put q.heap p (record {
    expiration = when;
    interval = interval;
    repeat = repeat;
    sequence = q.num_created + 1;
  });
}

-- `delete`
unfoldable pub delete_timer : ℕ → TimerQueue → TimerQueue
delete_timer p q = record q { alive = put q.alive p false }

abbrev pub same_size : TimerQueue → Bool
same_size q = length q.timers == length q.active_timers

-- `it == timers_.end () || when < it->first`
abbrev pub is_earliest : ℕ → List (ℕ × ℕ) → Bool
is_earliest when [] = true
is_earliest when (e ∷ es) = ltb when e.0

unfoldable pub insert_timer : ℕ → TimerQueue → Result (Bool × TimerQueue)
unfolding deref
insert_timer p q = do
  assert (same_size q)
  t ← deref p q
  assert (not (member (t.expiration, p) q.timers))
  assert (not (member (p, t.sequence) q.active_timers))
  let r = record q {
    timers = insert (t.expiration, p) q.timers;
    active_timers = insert (p, t.sequence) q.active_timers;
  }
  assert (same_size r)
  ok (is_earliest t.expiration q.timers, r)

unfoldable pub add_timer_in_loop : ℕ → TimerQueue → Result (TimerQueue × List Effect)
unfolding insert_timer
add_timer_in_loop p q = do
  (earliest_changed, r) ← insert_timer p q
  ok (r, if earliest_changed then reset_timerfd (r.heap p).expiration ∷ [] else [])

unfoldable pub cancel_in_loop : ℕ → ℕ → TimerQueue → Result TimerQueue
unfolding deref delete_timer
cancel_in_loop p sequence q = do
  assert (same_size q)
  r ←
      if member (p, sequence) q.active_timers
      then (do
        t ← deref p q
        assert (member (t.expiration, p) q.timers)
        ok (record (delete_timer p q) {
          timers = erase (t.expiration, p) q.timers;
          active_timers = erase (p, sequence) q.active_timers;
        }))
      else ok (
          if q.calling_expired_timers
          then record q { canceling_timers = insert (p, sequence) q.canceling_timers }
          else q)
  assert (same_size r)
  ok r

-- The loop over the expired timers in `getExpired`.
unfoldable pub deactivate : List (ℕ × ℕ) → TimerQueue → Result TimerQueue
unfolding deref
deactivate [] q = ok q
deactivate (e ∷ es) q = do
  t ← deref e.1 q
  assert (member (e.1, t.sequence) q.active_timers)
  deactivate es (record q { active_timers = erase (e.1, t.sequence) q.active_timers })

-- `UINTPTR_MAX`
abbrev pub uintptr_max : ℕ
uintptr_max = 2 ^ 64 - 1

unfoldable pub get_expired : ℕ → TimerQueue → Result (List (ℕ × ℕ) × TimerQueue)
unfolding deactivate
get_expired now q = do
  assert (same_size q)
  let expired = in_front (now, uintptr_max) q.timers
  let rest = from_bound (now, uintptr_max) q.timers
  assert (is_earliest now rest)
  r ← deactivate expired (record q { timers = rest })
  assert (same_size r)
  ok (expired, r)

-- `Timer::restart`
unfoldable pub restart : ℕ → Timer → Timer
restart now t = record t { expiration = if t.repeat then add_time now t.interval else invalid }

-- The loop over the expired timers in `reset`.
unfoldable pub rearm : List (ℕ × ℕ) → ℕ → TimerQueue → Result TimerQueue
unfolding deref restart insert_timer delete_timer
rearm [] now q = ok q
rearm (e ∷ es) now q = do
  t ← deref e.1 q
  r ←
      if t.repeat && not (member (e.1, t.sequence) q.canceling_timers)
      then (do
        (earliest, r) ← insert_timer e.1 (record q { heap = put q.heap e.1 (restart now t) })
        ok r)
      else ok (delete_timer e.1 q)
  rearm es now r

abbrev pub next_expire : List (ℕ × ℕ) → TimerQueue → Result ℕ
next_expire [] q = ok invalid
next_expire (e ∷ es) q = do t ← deref e.1 q; ok t.expiration

unfoldable pub reset : List (ℕ × ℕ) → ℕ → TimerQueue → Result (TimerQueue × List Effect)
unfolding rearm deref is_valid
reset expired now q = do
  r ← rearm expired now q
  next ← next_expire r.timers r
  ok (r, if is_valid next then reset_timerfd next ∷ [] else [])
