-- ===== src/TimerQueue/Examples.antt =====
-- Two timers of net/TimerQueue.cc: one repeats and is due, the other cancels it and adds a third.
use ouge_net_lib.Common.{
  ℕ, ◌≤◌, ◌≡◌, refl, sym, ap, err, Bool, true, false, List, [], ◌∷◌, ◌==◌, if◌then◌else◌, All,
  arith, Result, ok,
}
use ouge_net_lib.TimerQueue.{
  Timer, TimerQueue, Effect, add_timer_in_loop, new_timer, cancel_in_loop, delete_timer,
  get_expired, reset, reset_timerfd, run_timer, deref,
}
use ouge_net_lib.TimerQueue.Call.{
  Request, adds, cancels, run_timers, handle_read, handle_request, handle_requests,
}
use ouge_net_lib.TimerQueue.Valid.{IsValid}
use ouge_net_lib.TimerQueue.Requests.{ran}
use ouge_net_lib.TimerQueue.Expiry.{expired_at}
use ouge_net_lib.TimerQueue.Rearm.{Outcome}
use ouge_net_lib.TimerQueue.Reading.{AllocatesInCalls, handle_read_lem}

abbrev beats : Timer
beats = record { expiration = 100; interval = 50; repeat = true; sequence = 1 }

abbrev once : Timer
once = record { expiration = 120; interval = 0; repeat = false; sequence = 2 }

abbrev later : Timer
later = record { expiration = 900; interval = 0; repeat = false; sequence = 3 }

abbrev three : TimerQueue
three = record {
  heap = λ p. if p == 8 then beats else if p == 16 then once else later;
  alive = λ p. if p == 8 then true else if p == 16 then true else p == 24;
  num_created = 3;
  timers = (100, 8) ∷ (120, 16) ∷ (900, 24) ∷ [];
  active_timers = (8, 1) ∷ (16, 2) ∷ (24, 3) ∷ [];
  calling_expired_timers = false;
  canceling_timers = [];
}

three-IsValid : IsValid three
three-IsValid = record {
  timed = λ t p h. ground (arith, h);
  listed = λ p s h. ground (arith, h);
  timers_sorted = ground arith;
  active_sorted = ground arith;
  sizes = refl;
}

abbrev asks : ℕ → List Request
asks p = if p == 16 then cancels 8 1 ∷ adds 32 400 0 false ∷ [] else []

-- No timer lives at 32 when the callback asks for one there.
free_after :
    (r s : TimerQueue) (fs : List Effect)
    → r.alive 32 ≡ false
    → handle_request (cancels 8 1) r ≡ ok (s, fs)
    → s.alive 32 ≡ false
unfolding handle_request cancel_in_loop deref delete_timer
free_after r s fs free h = ground (arith, free, h)

abbrev lives_at_32 : Result (List (ℕ × ℕ) × TimerQueue) → Bool
lives_at_32 (ok (es, r)) = r.alive 32
lives_at_32 (err fault) = true

asks_fresh : AllocatesInCalls asks 150 three
unfolding get_expired handle_requests handle_request
asks_fresh r h =
    let free : r.alive 32 ≡ false = sym (ap lives_at_32 h) in
    (
      tt,
      λ s fs g. (
        (tt, λ u gs k. (free_after s u gs (ground (arith, free, g)) k, λ w hs l. tt)),
        λ u gs k. tt,
      ),
    )

handle_read_lem_example :
    (s u : TimerQueue) × (es : List Effect) × (handle_read asks 150 three ≡ ok (u, es))
    × (ran es ≡ 8 ∷ 16 ∷ [])
    × All (λ (e : ℕ × ℕ). e.0 ≤ 150) (expired_at 150 three)
    × All (λ (e : ℕ × ℕ). s.heap e.1 ≡ three.heap e.1) (expired_at 150 three)
    × All (λ (e : ℕ × ℕ). Outcome 150 s u e.1) (expired_at 150 three)
    × IsValid u
handle_read_lem_example = handle_read_lem asks 150 three three-IsValid (ground arith) asks_fresh

abbrev effects : Result (TimerQueue × List Effect) → List Effect
effects (ok (q, es)) = es
effects (err fault) = []

-- The cancelled timer is gone; the added one is the next, when it is added and at the end.
cancelled_runs :
    effects (handle_read asks 150 three)
    ≡ run_timer 8 ∷ run_timer 16 ∷ reset_timerfd 400 ∷ reset_timerfd 400 ∷ []
unfolding handle_read get_expired run_timers reset handle_requests handle_request cancel_in_loop
    add_timer_in_loop new_timer
cancelled_runs = refl
