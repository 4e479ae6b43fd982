-- ===== src/TimerQueue/Call.antt =====
-- `handleRead`: what the timers' callbacks do to the queue while they run, and the whole call.
use ouge_net_lib.Common.{ℕ, Bool, true, false, ◌++◌, List, [], ◌∷◌, Result, ok, ◌>>=◌}
use ouge_net_lib.TimerQueue.{
  TimerQueue, Effect, run_timer, new_timer, add_timer_in_loop, cancel_in_loop, get_expired, deref,
  reset,
}

-- `addTimer` of a timer that the allocator puts at an address, and `cancel`, in the loop's thread.
pub data Request : Type 0 where
  adds : ℕ → ℕ → ℕ → Bool → Request  -- the address, the expiration, the interval and `repeat_`
  cancels : ℕ → ℕ → Request  -- the two parts of a `TimerId`

unfoldable pub handle_request : Request → TimerQueue → Result (TimerQueue × List Effect)
handle_request (adds p when interval repeat) q =
    add_timer_in_loop p (new_timer p when interval repeat q)
handle_request (cancels p sequence) q = do r ← cancel_in_loop p sequence q; ok (r, [])

unfoldable pub handle_requests : List Request → TimerQueue → Result (TimerQueue × List Effect)
unfolding handle_request
handle_requests [] q = ok (q, [])
handle_requests (x ∷ xs) q = do
  (r, es) ← handle_request x q
  (s, fs) ← handle_requests xs r
  ok (s, es ++ fs)

-- The callbacks of the expired timers: `calls p` is what the one at `p` asks of the queue.
unfoldable pub run_timers :
    (ℕ → List Request) → List (ℕ × ℕ) → TimerQueue → Result (TimerQueue × List Effect)
unfolding deref handle_requests
run_timers calls [] q = ok (q, [])
run_timers calls (e ∷ es) q = do
  t ← deref e.1 q
  (r, fs) ← handle_requests (calls e.1) q
  (s, gs) ← run_timers calls es r
  ok (s, run_timer e.1 ∷ (fs ++ gs))

unfoldable pub handle_read : (ℕ → List Request) → ℕ → TimerQueue → Result (TimerQueue × List Effect)
unfolding get_expired run_timers reset
handle_read calls now q = do
  (expired, r) ← get_expired now q
  (s, es) ←
      run_timers calls expired (record r { calling_expired_timers = true; canceling_timers = [] })
  (u, fs) ← reset expired now (record s { calling_expired_timers = false })
  ok (u, es ++ fs)
