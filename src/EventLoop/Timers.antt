-- ===== src/EventLoop/Timers.antt =====
-- `runAt`, `runAfter`, `runEvery` and `cancel` of net/EventLoop.cc, in the loop's thread. A timer is
-- put at the address that `new` gives; `now` is the time of the call, `repeat` says whether the
-- interval is above 0.
use ouge_net_lib.Common.{
  ℕ, ◌+◌, ◌≡◌, refl, sym, ap, ◌∙◌, Bool, true, false, ◌&&◌, ◌||◌, List, [], ◌∷◌, ltb, leb, arith,
  if◌then◌else◌, Result, ok,
}
use ouge_net_lib.Common.Sets.{
  member, insert, before, is_pair, in_front, IsSorted, IsAbove-member, member-insert,
}
use ouge_net_lib.Timestamp.{add_time}
use ouge_net_lib.TimerQueue.{
  Timer, TimerQueue, Effect, new_timer, add_timer_in_loop, uintptr_max, is_earliest, reset_timerfd,
}
use ouge_net_lib.TimerQueue.Call.{adds, cancels, handle_request}
use ouge_net_lib.TimerQueue.Valid.{IsValid, Agree-put, with_timer, insert_timer-IsValid}
use ouge_net_lib.TimerQueue.Expiry.{expired_at}

unfoldable pub run_at : ℕ → ℕ → TimerQueue → Result (TimerQueue × List Effect)
unfolding handle_request
run_at p time q = handle_request (adds p time 0 false) q

unfoldable pub run_after : ℕ → ℕ → ℕ → TimerQueue → Result (TimerQueue × List Effect)
unfolding run_at
run_after p delay now q = run_at p (add_time now delay) q

unfoldable pub run_every : ℕ → ℕ → Bool → ℕ → TimerQueue → Result (TimerQueue × List Effect)
unfolding handle_request
run_every p interval repeat now q =
    handle_request (adds p (add_time now interval) interval repeat) q

unfoldable pub cancel : ℕ → ℕ → TimerQueue → Result (TimerQueue × List Effect)
unfolding handle_request
cancel p sequence q = handle_request (cancels p sequence) q

-- In a sorted set, the elements in front of a bound are those before it.
member-in_front :
    (x b : ℕ × ℕ) (s : List (ℕ × ℕ))
    → IsSorted s
    → member x (in_front b s) ≡ (member x s && before x b)
member-in_front x b [] h = refl
member-in_front x b (y ∷ s) h = ground (arith, member-in_front x b s h.1, IsAbove-member y x s h.0)

-- What the addition of a timer gives: when it expires, and whether it repeats.
abbrev pub Armed : ℕ → ℕ → TimerQueue → Result (TimerQueue × List Effect) → Type 0
Armed p when q x =
    (r : TimerQueue) × (es : List Effect) × (x ≡ ok (r, es))
    × IsValid r
    × (r.timers ≡ insert (when, p) q.timers)

add_timer-Armed :
    (p when interval : ℕ) (repeat : Bool) (q : TimerQueue)
    → IsValid q
    → q.alive p ≡ false
    → Armed p when q (handle_request (adds p when interval repeat) q)
unfolding handle_request add_timer_in_loop new_timer
add_timer-Armed p when interval repeat q v free =
    let out : (s : ℕ) → member (p, s) q.active_timers ≡ false =
      λ s. ground (arith, v.listed p s, free) in
    let t : Timer = record {
      expiration = when;
      interval = interval;
      repeat = repeat;
      sequence = q.num_created + 1;
    } in
    let made = new_timer p when interval repeat q in
    let mv : IsValid made = Agree-put p t true v out in
    let (done, w) =
      insert_timer-IsValid p {q = made} mv (ground arith)
        (ground (arith, out (q.num_created + 1))) in
    (
      with_timer p made,
      if is_earliest when q.timers then reset_timerfd when ∷ [] else [],
      ground (arith, done),
      w,
      ground arith,
    )

-- `runAfter` on a well-formed queue, where `new` gives an address below the highest one at which no
-- timer lives, succeeds and keeps the queue well-formed. A read of the timers at the time `later`
-- takes the new timer out exactly where the delay has passed since `now`, and every timer that was
-- there before exactly where it would have been taken out without the new one.
pub run_after-expired_at :
    (p delay now later : ℕ) (q : TimerQueue)
    → IsValid q
    → q.alive p ≡ false
    → ltb p uintptr_max ≡ true
    → (r : TimerQueue) × (es : List Effect) × (run_after p delay now q ≡ ok (r, es))
      × IsValid r
      × (member (add_time now delay, p) (expired_at later r) ≡ leb (add_time now delay) later)
      × ((x : ℕ × ℕ)
          → is_pair x (add_time now delay, p) ≡ false
          → member x (expired_at later r) ≡ member x (expired_at later q))
unfolding run_after
run_after-expired_at p delay now later q v free below =
    let when = add_time now delay in
    let (r, es, done, w, there) = add_timer-Armed p when 0 false q v free in
    let front : (x : ℕ × ℕ)
        → member x (expired_at later r) ≡ (member x r.timers && before x (later, uintptr_max)) =
      λ x. member-in_front x (later, uintptr_max) r.timers w.timers_sorted in
    let in_both : (x : ℕ × ℕ) → member x r.timers ≡ (is_pair x (when, p) || member x q.timers) =
      λ x. ap (member x) there ∙ member-insert x (when, p) q.timers in
    (
      r,
      es,
      done,
      w,
      front (when, p) ∙ ground (arith, in_both (when, p), below),
      λ x other.
          front x
          ∙ ground (arith, in_both x, other)
          ∙ sym (member-in_front x (later, uintptr_max) q.timers v.timers_sorted),
    )
