-- ===== src/TimerQueue/Expiry.antt =====
-- `getExpired`: the timers that are due leave both sets.
use ouge_net_lib.Common.{
  ℕ, ◌≤◌, ◌≡◌, refl, sym, subst, true, false, Bool-cases, inl, inr, ◌||◌, List, [], ◌∷◌, ◌++◌, ltb,
  All, arith, ok,
}
use ouge_net_lib.Common.Sets.{
  member, erase, before, IsSorted, IsAbove, in_front, from_bound, in_front-append, in_front-before,
  from_bound-after, IsAbove-member,
}
use ouge_net_lib.TimerQueue.{
  Timer, TimerQueue, is_earliest, deref, deactivate, get_expired, uintptr_max,
}
use ouge_net_lib.TimerQueue.Valid.{Agree, IsValid, Agree-erase}
use ouge_net_lib.TimerQueue.Requests.{IsApart, Held}

member-append : (x : ℕ × ℕ) (s u : List (ℕ × ℕ)) → member x (s ++ u) ≡ (member x s || member x u)
member-append x [] u = refl
member-append x (y ∷ s) u = ground (arith, member-append x s u)

module _ (rest : List (ℕ × ℕ)) where
  deactivate_lem :
      (es : List (ℕ × ℕ)) (q : TimerQueue)
      → Agree q.heap q.alive (es ++ rest) q.active_timers
      → (active : List (ℕ × ℕ)) × (deactivate es q ≡ ok (record q { active_timers = active }))
        × Agree q.heap q.alive rest active
  unfolding deactivate
  deactivate_lem [] q v = (q.active_timers, refl, v)
  deactivate_lem (e ∷ es) q v =
      let (up, due, there) = v.timed e.0 e.1 (ground arith) in
      let w = Agree-erase e.1 v there in
      let same : erase ((q.heap e.1).expiration, e.1) (e ∷ (es ++ rest)) ≡ es ++ rest =
        ground (arith, due) in
      let w' : Agree q.heap q.alive (es ++ rest)
          (erase (e.1, (q.heap e.1).sequence) q.active_timers) =
        subst (λ s. Agree q.heap q.alive s (erase (e.1, (q.heap e.1).sequence) q.active_timers))
          same w in
      let (active, done, last) =
        deactivate_lem es
          (record q { active_timers = erase (e.1, (q.heap e.1).sequence) q.active_timers }) w' in
      (active, rw (up, there, deref) done, last)

  -- No timer in front of another has its address.
  expiration-IsApart :
      (e : ℕ × ℕ) (heap : ℕ → Timer) (fs : List (ℕ × ℕ))
      → (heap e.1).expiration ≡ e.0
      → ((t p : ℕ) → member (t, p) (fs ++ rest) ≡ true → (heap p).expiration ≡ t)
      → IsAbove e (fs ++ rest)
      → IsApart e.1 fs
  expiration-IsApart e heap [] due known above = tt
  expiration-IsApart e heap (f ∷ fs) due known above = (
    ground (arith, due, known f.0 f.1, above.0),
    expiration-IsApart e heap fs due (λ t p h. known t p (ground (arith, h))) above.1,
  )

  deactivate-Held :
      (es active : List (ℕ × ℕ)) (q : TimerQueue)
      → IsSorted (es ++ rest)
      → ((t p : ℕ)
          → member (t, p) (es ++ rest) ≡ true
          → (q.alive p ≡ true) × ((q.heap p).expiration ≡ t))
      → Agree q.heap q.alive rest active
      → Held (record q { timers = rest; active_timers = active }) es
  deactivate-Held [] active q sorted known last = tt
  deactivate-Held (e ∷ es) active q sorted known last =
      let (up, due) = known e.0 e.1 (ground arith) in
      let here = IsAbove-member e e (es ++ rest) sorted.0 in
      (
        (
          up,
          ground (arith, due, here, last.listed e.1 (q.heap e.1).sequence, member-append e es rest),
        ),
        expiration-IsApart e q.heap es due (λ t p h. (known t p (ground (arith, h))).1) sorted.0,
        deactivate-Held es active q sorted.1 (λ t p h. known t p (ground (arith, h))) last,
      )

-- What `getExpired` leaves.
abbrev pub expired_at : ℕ → TimerQueue → List (ℕ × ℕ)
expired_at now q = in_front (now, uintptr_max) q.timers

-- Where no object stands at the highest address, a timer in front of the bound is one that is due.
due_front :
    (now : ℕ) (s : List (ℕ × ℕ))
    → All (λ (e : ℕ × ℕ). before e (now, uintptr_max) ≡ true) s
    → All (λ (e : ℕ × ℕ). e.0 ≤ now) s
due_front now [] h = tt
due_front now (e ∷ s) h = (ground (arith, h.0), due_front now s h.1)

late_rest :
    (now : ℕ) (s : List (ℕ × ℕ))
    → All (λ (e : ℕ × ℕ). before e (now, uintptr_max) ≡ false) s
    → All (λ (e : ℕ × ℕ). ltb e.1 uintptr_max ≡ true) s
    → All (λ (e : ℕ × ℕ). ltb now e.0 ≡ true) s
late_rest now [] h g = tt
late_rest now (e ∷ s) h g = (ground (arith, h.0, g.0), late_rest now s h.1 g.1)

All-from_bound :
    (x : ℕ × ℕ) (P : ℕ × ℕ → Type 0) (s : List (ℕ × ℕ)) → All P s → All P (from_bound x s)
All-from_bound x P [] h = tt
All-from_bound x P (y ∷ s) h = elim (Bool-cases (before y x)) [
  | inl b ↦ rw b (All-from_bound x P s h.1)
  | inr nb ↦ rw nb h
]

earliest_of :
    (now : ℕ) (s : List (ℕ × ℕ))
    → All (λ (e : ℕ × ℕ). ltb now e.0 ≡ true) s
    → is_earliest now s ≡ true
earliest_of now [] h = refl
earliest_of now (e ∷ s) h = h.0

-- Every timer object stands below the highest address.
abbrev pub IsBelowTop : TimerQueue → Type 0
IsBelowTop q = All (λ (e : ℕ × ℕ). ltb e.1 uintptr_max ≡ true) q.timers

-- `getExpired` of a well-formed queue fails no `assert` and takes out exactly the timers that are
-- due, in the order of their expiration: those that it gives are due, those that stay are not, and
-- together they are what was there. The queue stays well-formed; the expired timers live and are in
-- neither set, and no timer object changes.
pub get_expired_lem :
    (now : ℕ) (q : TimerQueue)
    → IsValid q
    → IsBelowTop q
    → (r : TimerQueue) × (get_expired now q ≡ ok (expired_at now q, r))
      × IsValid r
      × Held r (expired_at now q)
      × (r.heap ≡ q.heap)
      × (expired_at now q ++ r.timers ≡ q.timers)
      × All (λ (e : ℕ × ℕ). e.0 ≤ now) (expired_at now q)
      × All (λ (e : ℕ × ℕ). ltb now e.0 ≡ true) r.timers
unfolding get_expired
get_expired_lem now q v top =
    let bound : ℕ × ℕ = (now, uintptr_max) in
    let rest = from_bound bound q.timers in
    let parts = in_front-append bound q.timers in
    let start : Agree q.heap q.alive (expired_at now q ++ rest) q.active_timers =
      subst (λ s. Agree q.heap q.alive s q.active_timers) (sym parts) v in
    let (active, done, last) =
      deactivate_lem rest (expired_at now q) (record q { timers = rest }) start in
    let late =
      late_rest now rest (from_bound-after bound q.timers v.timers_sorted)
        (All-from_bound bound (λ e. ltb e.1 uintptr_max ≡ true) q.timers top) in
    let first = earliest_of now rest late in
    (
      record q { timers = rest; active_timers = active },
      ground (arith, v.sizes, first, done, last.sizes),
      last,
      deactivate-Held rest (expired_at now q) active q start.timers_sorted
          (λ t p h. (let (up, due, there) = start.timed t p h in (up, due))) last,
      refl,
      parts,
      due_front now (expired_at now q) (in_front-before bound q.timers),
      late,
    )
