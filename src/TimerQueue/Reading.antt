-- ===== src/TimerQueue/Reading.antt =====
-- `handleRead`, the call of the poller when the descriptor of the timers is readable.
use ouge_net_lib.Common.{
  ℕ, ◌≤◌, ◌≡◌, refl, ap, ◌∙◌, true, false, List, [], ◌∷◌, ◌++◌, All, arith, ok, append-nil,
}
use ouge_net_lib.TimerQueue.{TimerQueue, Effect, get_expired}
use ouge_net_lib.TimerQueue.Call.{Request, handle_read}
use ouge_net_lib.TimerQueue.Valid.{IsValid}
use ouge_net_lib.TimerQueue.Requests.{
  Held, Spares, ran, ran-append, AllocatesAll, addresses, Spares-Held, run_timers-Serves,
}
use ouge_net_lib.TimerQueue.Expiry.{expired_at, IsBelowTop, get_expired_lem}
use ouge_net_lib.TimerQueue.Rearm.{Outcome}
use ouge_net_lib.TimerQueue.Reset.{armed_for, reset_lem}

-- The queue while the callbacks run.
abbrev pub calling : TimerQueue → TimerQueue
calling r = record r { calling_expired_timers = true; canceling_timers = [] }

-- In every state in which a callback adds a timer, `new` gives an address where no timer lives.
abbrev pub AllocatesInCalls : (ℕ → List Request) → ℕ → TimerQueue → Type 0
AllocatesInCalls calls now q =
    (r : TimerQueue)
    → get_expired now q ≡ ok (expired_at now q, r)
    → AllocatesAll calls (expired_at now q) (calling r)

ran_armed : (ts : List (ℕ × ℕ)) → ran (armed_for ts) ≡ []
ran_armed ts = ground arith

unchanged :
    (q r s : TimerQueue) (es : List (ℕ × ℕ))
    → Spares r s
    → Held r es
    → r.heap ≡ q.heap
    → All (λ (e : ℕ × ℕ). s.heap e.1 ≡ q.heap e.1) es
unchanged q r s [] spares held same = tt
unchanged q r s (e ∷ es) spares held same =
    ((spares e.1 held.0).1 ∙ ap (λ h. h e.1) same, unchanged q r s es spares held.2 same)

-- `handleRead` of a well-formed queue, where every timer object stands below the highest address and
-- `new` gives the callbacks' timers addresses where none lives: it fails no `assert` and follows no
-- dangling pointer, whatever timers the callbacks add and cancel, their own included. It runs exactly
-- the callbacks of the timers that are due, in the order of their expiration. Then, with `s` the
-- queue after the callbacks, each of them is armed again, its interval after `now`, where it repeats
-- and none of them cancelled it, and deleted otherwise. The queue is well-formed afterwards.
pub handle_read_lem :
    (calls : ℕ → List Request) (now : ℕ) (q : TimerQueue)
    → IsValid q
    → IsBelowTop q
    → AllocatesInCalls calls now q
    → (s u : TimerQueue) × (es : List Effect) × (handle_read calls now q ≡ ok (u, es))
      × (ran es ≡ addresses (expired_at now q))
      × All (λ (e : ℕ × ℕ). e.0 ≤ now) (expired_at now q)
      × All (λ (e : ℕ × ℕ). s.heap e.1 ≡ q.heap e.1) (expired_at now q)
      × All (λ (e : ℕ × ℕ). Outcome now s u e.1) (expired_at now q)
      × IsValid u
unfolding handle_read
handle_read_lem calls now q v top fresh =
    let (r, got, rv, held, same, parts, due, late) = get_expired_lem now q v top in
    let (s, fs, done, there, sv, spares, flag) =
      run_timers-Serves calls (expired_at now q) (calling r) rv held (fresh r got) in
    let after : TimerQueue = record s { calling_expired_timers = false } in
    let (u, last, all) =
      reset_lem now (expired_at now q) after sv (Spares-Held r s (expired_at now q) spares held) in
    let quiet_tail : ran (fs ++ armed_for u.timers) ≡ addresses (expired_at now q) =
      rw (ran-append fs (armed_for u.timers), there, ran_armed u.timers)
        (append-nil (addresses (expired_at now q))) in
    (
      after,
      u,
      fs ++ armed_for u.timers,
      rw (got, done, last) refl,
      quiet_tail,
      due,
      unchanged q r s (expired_at now q) spares held same,
      all.outcomes,
      all.valid,
    )
