-- ===== src/TimerQueue/Reset.antt =====
-- `reset`: all the expired timers are armed again or deleted, and the descriptor is armed for the next.
use ouge_net_lib.Common.{
  ℕ, ◌≡◌, refl, ◌∙◌, true, Bool-cases, inl, inr, List, [], ◌∷◌, All, arith, ok, if◌then◌else◌,
}
use ouge_net_lib.Common.Sets.{member}
use ouge_net_lib.Timestamp.{is_valid, invalid}
use ouge_net_lib.TimerQueue.{
  TimerQueue, Effect, deref, delete_timer, rearm, reset, next_expire, reset_timerfd,
}
use ouge_net_lib.TimerQueue.Valid.{IsValid}
use ouge_net_lib.TimerQueue.Requests.{IsApart, Held}
use ouge_net_lib.TimerQueue.Rearm.{again, Outcome, Frame, Rearmed, again-Rearmed, deleted-Rearmed}

-- What the loop of `reset` does to the queue.
pub record RearmedAll (now : ℕ) (q r : TimerQueue) (es : List (ℕ × ℕ)) : Type 0 where
  pub valid : IsValid r
  pub outcomes : All (λ (e : ℕ × ℕ). Outcome now q r e.1) es
  pub frame : (x : ℕ) → IsApart x es → Frame q r x

apart_Held :
    (now : ℕ) (q r : TimerQueue) (p : ℕ) (es : List (ℕ × ℕ))
    → Rearmed now q r p
    → IsApart p es
    → Held q es
    → Held r es
apart_Held now q r p [] step far held = tt
apart_Held now q r p (e ∷ es) step far held = (
  ground (arith, step.frame e.1 far.0, held.0),
  held.1,
  apart_Held now q r p es step far.1 held.2,
)

later_outcomes :
    (now : ℕ) (q r s : TimerQueue) (p : ℕ) (es : List (ℕ × ℕ))
    → Rearmed now q r p
    → IsApart p es
    → All (λ (e : ℕ × ℕ). Outcome now r s e.1) es
    → All (λ (e : ℕ × ℕ). Outcome now q s e.1) es
later_outcomes now q r s p [] step far got = tt
later_outcomes now q r s p (e ∷ es) step far got = (
  ground (arith, step.frame e.1 far.0, step.canceling, got.0),
  later_outcomes now q r s p es step far.1 got.1,
)

join_rounds :
    (now : ℕ) (q r s : TimerQueue) (e : ℕ × ℕ) (es : List (ℕ × ℕ))
    → IsApart e.1 es
    → Rearmed now q r e.1
    → RearmedAll now r s es
    → RearmedAll now q s (e ∷ es)
join_rounds now q r s e es far step rest = record {
  valid = rest.valid;
  outcomes = (
    ground
        (arith, step.outcome, rest.frame e.1 far, (rest.frame e.1 far).2 (r.heap e.1).expiration),
    later_outcomes now q r s e.1 es step far rest.outcomes,
  );
  frame = λ x away.
      let near : Frame q r x = step.frame x (ground (arith, away.0)) in
      let onward : Frame r s x = rest.frame x away.1 in
      (
        onward.0 ∙ near.0,
        onward.1 ∙ near.1,
        λ t h. onward.2 t (near.2 t h),
        λ h. ground (arith, near.3 h, onward.3, near.0),
      );
}

pub rearm_lem :
    (now : ℕ) (es : List (ℕ × ℕ)) (q : TimerQueue)
    → IsValid q
    → Held q es
    → (r : TimerQueue) × (rearm es now q ≡ ok r) × RearmedAll now q r es
unfolding rearm
rearm_lem now [] q v held =
    (q, refl, record { valid = v; outcomes = tt; frame = λ x far. (refl, refl, λ t h. h, λ h. h) })
rearm_lem now (e ∷ es) q v held = elim (Bool-cases (again q e.1)) [
  | inl on ↦
      let (r, done, step) = again-Rearmed now e.1 q v held.0 on in
      let (s, done', rest) =
        rearm_lem now es r step.valid (apart_Held now q r e.1 es step held.1 held.2) in
      (s, ground (arith, held.0, on, done, done'), join_rounds now q r s e es held.1 step rest)
  | inr off ↦
      let r = delete_timer e.1 q in
      let step = deleted-Rearmed now e.1 q v held.0 off in
      let (s, done', rest) =
        rearm_lem now es r step.valid (apart_Held now q r e.1 es step held.1 held.2) in
      (s, ground (arith, held.0, off, done'), join_rounds now q r s e es held.1 step rest)
]

abbrev pub earliest : List (ℕ × ℕ) → ℕ
earliest [] = invalid
earliest (e ∷ es) = e.0

next_expire_lem : (r : TimerQueue) → IsValid r → next_expire r.timers r ≡ ok (earliest r.timers)
unfolding deref
next_expire_lem r v = go r.timers v.timed
  where
    go :
        (ts : List (ℕ × ℕ))
        → ((t p : ℕ)
            → member (t, p) ts ≡ true
            → (r.alive p ≡ true)
              × ((r.heap p).expiration ≡ t)
              × (member (p, (r.heap p).sequence) r.active_timers ≡ true))
        → next_expire ts r ≡ ok (earliest ts)
    go [] known = refl
    go (e ∷ es) known = ground (arith, known e.0 e.1)

-- What `resetTimerfd` is given.
abbrev pub armed_for : List (ℕ × ℕ) → List Effect
armed_for ts = if is_valid (earliest ts) then reset_timerfd (earliest ts) ∷ [] else []

pub reset_lem :
    (now : ℕ) (es : List (ℕ × ℕ)) (q : TimerQueue)
    → IsValid q
    → Held q es
    → (r : TimerQueue) × (reset es now q ≡ ok (r, armed_for r.timers)) × RearmedAll now q r es
unfolding reset
reset_lem now es q v held =
    let (r, done, all) = rearm_lem now es q v held in
    (r, rw (done, next_expire_lem r all.valid) refl, all)
