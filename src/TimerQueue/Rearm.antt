-- ===== src/TimerQueue/Rearm.antt =====
-- `reset` and the whole of `handleRead`: each expired timer runs, and is then either armed again or
-- deleted.
use ouge_net_lib.Common.{ℕ, ◌≡◌, refl, Bool, true, false, not, ◌&&◌, ◌==◌, arith, ok}
use ouge_net_lib.Common.Sets.{member, member-insert}
use ouge_net_lib.Timestamp.{add_time}
use ouge_net_lib.TimerQueue.{TimerQueue, put, is_earliest, insert_timer, delete_timer, restart}
use ouge_net_lib.TimerQueue.Valid.{IsValid, Agree-put, with_timer, insert_timer-IsValid}
use ouge_net_lib.TimerQueue.Requests.{IsOut}

-- A timer runs again where it repeats and was not cancelled since it expired.
abbrev pub again : TimerQueue → ℕ → Bool
again q p = (q.heap p).repeat && not (member (p, (q.heap p).sequence) q.canceling_timers)

-- What becomes of the timer at `p`: it is due again after its interval, or deleted.
abbrev pub Outcome : ℕ → TimerQueue → TimerQueue → ℕ → Type 0
Outcome now q r p =
    (again q p ≡ true
      → (r.alive p ≡ true)
        × ((r.heap p).expiration ≡ add_time now (q.heap p).interval)
        × (member ((r.heap p).expiration, p) r.timers ≡ true))
    × (again q p ≡ false → r.alive p ≡ false)

-- The other timers stay as they are.
abbrev pub Frame : TimerQueue → TimerQueue → ℕ → Type 0
Frame q r p =
    (r.heap p ≡ q.heap p)
    × (r.alive p ≡ q.alive p)
    × ((t : ℕ) → member (t, p) q.timers ≡ true → member (t, p) r.timers ≡ true)
    × (member (p, (q.heap p).sequence) q.active_timers ≡ false
        → member (p, (q.heap p).sequence) r.active_timers ≡ false)

-- One round of the loop.
pub record Rearmed (now : ℕ) (q r : TimerQueue) (p : ℕ) : Type 0 where
  pub valid : IsValid r
  pub outcome : Outcome now q r p
  pub frame : (x : ℕ) → (p == x) ≡ false → Frame q r x
  pub canceling : r.canceling_timers ≡ q.canceling_timers
  pub calling : r.calling_expired_timers ≡ q.calling_expired_timers

absent :
    (q : TimerQueue) (p : ℕ)
    → IsValid q
    → IsOut q p
    → (s : ℕ) → member (p, s) q.active_timers ≡ false
absent q p v out s = ground (arith, v.listed p s, out)

pub again-Rearmed :
    (now p : ℕ) (q : TimerQueue)
    → IsValid q
    → IsOut q p
    → again q p ≡ true
    → (r : TimerQueue) × (insert_timer p (record q { heap = put q.heap p (restart now (q.heap p)) })
        ≡ ok (is_earliest (add_time now (q.heap p).interval) q.timers, r))
      × Rearmed now q r p
unfolding restart
again-Rearmed now p q v out on =
    let t = restart now (q.heap p) in
    let none_of = absent q p v out in
    let moved = Agree-put p t true v none_of in
    let s : TimerQueue = record q { heap = put q.heap p t } in
    let sv : IsValid s = record {
      timed = λ u x h. ground (arith, moved.timed u x h, out, v.timed u x h);
      listed = λ x n h. ground (arith, moved.listed x n h, out, v.listed x n h);
      timers_sorted = v.timers_sorted;
      active_sorted = v.active_sorted;
      sizes = v.sizes;
    } in
    let (done, w) =
      insert_timer-IsValid p {q = s} sv out.0 (ground (arith, none_of (q.heap p).sequence)) in
    (
      with_timer p s,
      ground (arith, done, on),
      record {
        valid = w;
        outcome = ground (
          arith,
          on,
          out,
          member-insert ((put q.heap p t p).expiration, p) ((put q.heap p t p).expiration, p)
              q.timers,
        );
        frame = λ x far. (
          ground (arith, far),
          refl,
          λ u h.
              ground (arith, h, member-insert (u, x) ((put q.heap p t p).expiration, p) q.timers),
          λ h. ground (
            arith,
            far,
            h,
            member-insert (x, (q.heap x).sequence) (p, (put q.heap p t p).sequence) q.active_timers,
          ),
        );
        canceling = refl;
        calling = refl;
      },
    )

pub deleted-Rearmed :
    (now p : ℕ) (q : TimerQueue)
    → IsValid q
    → IsOut q p
    → again q p ≡ false
    → Rearmed now q (delete_timer p q) p
unfolding delete_timer
deleted-Rearmed now p q v out off =
    let none_of = absent q p v out in
    record {
      valid = record {
        timed = λ u x h. ground (arith, v.timed u x h, none_of (q.heap x).sequence);
        listed = λ x n h. ground (arith, v.listed x n h, none_of n, h);
        timers_sorted = v.timers_sorted;
        active_sorted = v.active_sorted;
        sizes = v.sizes;
      };
      outcome = ground (arith, off);
      frame = λ x far. (refl, ground (arith, far), λ u h. h, λ h. h);
      canceling = refl;
      calling = refl;
    }
