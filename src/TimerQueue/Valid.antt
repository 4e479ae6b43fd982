-- ===== src/TimerQueue/Valid.antt =====
-- The two sets and the timer objects agree: the same timers stand in both, by their expiration and
-- by their sequence, and none of them is deleted.
use ouge_net_lib.Common.{ℕ, ◌≡◌, Bool, true, false, List, length, arith, ok}
use ouge_net_lib.Common.Sets.{
  member, insert, erase, IsSorted, member-insert, member-erase, length-insert, length-erase,
  insert-IsSorted, erase-IsSorted,
}
use ouge_net_lib.TimerQueue.{Timer, TimerQueue, put, is_earliest, insert_timer}

pub record Agree (heap : ℕ → Timer) (alive : ℕ → Bool) (timers active : List (ℕ × ℕ)) : Type 0 where
  pub timed :
      (t p : ℕ)
      → member (t, p) timers ≡ true
      → (alive p ≡ true) × ((heap p).expiration ≡ t) × (member (p, (heap p).sequence) active ≡ true)
  pub listed :
      (p s : ℕ)
      → member (p, s) active ≡ true
      → (alive p ≡ true) × ((heap p).sequence ≡ s) × (member ((heap p).expiration, p) timers ≡ true)
  pub timers_sorted : IsSorted timers
  pub active_sorted : IsSorted active
  pub sizes : length timers ≡ length active

abbrev pub IsValid : TimerQueue → Type 0
IsValid q = Agree q.heap q.alive q.timers q.active_timers

module _ {heap : ℕ → Timer} {alive : ℕ → Bool} {timers active : List (ℕ × ℕ)} where
  -- A timer that is in neither set joins both.
  pub Agree-insert :
      (p : ℕ)
      → Agree heap alive timers active
      → alive p ≡ true
      → member (p, (heap p).sequence) active ≡ false
      → Agree heap alive
          (insert ((heap p).expiration, p) timers)
          (insert (p, (heap p).sequence) active)
  Agree-insert p v up out = record {
    timed = λ t r h. ground (
      arith,
      v.timed t r,
      member-insert (t, r) ((heap p).expiration, p) timers,
      member-insert (r, (heap r).sequence) (p, (heap p).sequence) active,
      h,
    );
    listed = λ r s h. ground (
      arith,
      v.listed r s,
      member-insert (r, s) (p, (heap p).sequence) active,
      member-insert ((heap r).expiration, r) ((heap p).expiration, p) timers,
      h,
    );
    timers_sorted = insert-IsSorted ((heap p).expiration, p) timers v.timers_sorted;
    active_sorted = insert-IsSorted (p, (heap p).sequence) active v.active_sorted;
    sizes = ground (
      arith,
      v.sizes,
      v.timed (heap p).expiration p,
      length-insert ((heap p).expiration, p) timers,
      length-insert (p, (heap p).sequence) active,
    );
  }

  -- A timer leaves both.
  pub Agree-erase :
      (p : ℕ)
      → Agree heap alive timers active
      → member (p, (heap p).sequence) active ≡ true
      → Agree heap alive
          (erase ((heap p).expiration, p) timers)
          (erase (p, (heap p).sequence) active)
  Agree-erase p v there = record {
    timed = λ t r h. ground (
      arith,
      v.timed t r,
      member-erase (t, r) ((heap p).expiration, p) timers v.timers_sorted,
      member-erase (r, (heap r).sequence) (p, (heap p).sequence) active v.active_sorted,
      h,
    );
    listed = λ r s h. ground (
      arith,
      v.listed r s,
      member-erase (r, s) (p, (heap p).sequence) active v.active_sorted,
      member-erase ((heap r).expiration, r) ((heap p).expiration, p) timers v.timers_sorted,
      h,
    );
    timers_sorted = erase-IsSorted ((heap p).expiration, p) timers v.timers_sorted;
    active_sorted = erase-IsSorted (p, (heap p).sequence) active v.active_sorted;
    sizes = ground (
      arith,
      v.sizes,
      v.listed p (heap p).sequence there,
      length-erase ((heap p).expiration, p) timers,
      length-erase (p, (heap p).sequence) active there,
    );
  }

  -- An object in neither set may change and be deleted.
  pub Agree-put :
      (p : ℕ) (t : Timer) (b : Bool)
      → Agree heap alive timers active
      → ((s : ℕ) → member (p, s) active ≡ false)
      → Agree (put heap p t) (put alive p b) timers active
  Agree-put p t b v out = record {
    timed = λ u r h. ground (arith, v.timed u r h, out (heap r).sequence);
    listed = λ r s h. ground (arith, v.listed r s h, out s, h);
    timers_sorted = v.timers_sorted;
    active_sorted = v.active_sorted;
    sizes = v.sizes;
  }

-- What an insertion leaves.
abbrev pub with_timer : ℕ → TimerQueue → TimerQueue
with_timer p q = record q {
  timers = insert ((q.heap p).expiration, p) q.timers;
  active_timers = insert (p, (q.heap p).sequence) q.active_timers;
}

-- `insert` of a timer that lives and is not active fails no `assert`.
pub insert_timer-IsValid :
    (p : ℕ) {q : TimerQueue}
    → IsValid q
    → q.alive p ≡ true
    → member (p, (q.heap p).sequence) q.active_timers ≡ false
    → (insert_timer p q ≡ ok (is_earliest (q.heap p).expiration q.timers, with_timer p q))
      × IsValid (with_timer p q)
unfolding insert_timer
insert_timer-IsValid p {q} v up out =
    let w = Agree-insert p v up out in
    (ground (arith, v.sizes, w.sizes, up, out, v.timed (q.heap p).expiration p), w)
