-- ===== src/TimerQueue/Requests.antt =====
-- `addTimer` and `cancel`, also from the callback of a timer that has expired: they succeed, keep the
-- invariant, and leave the expired timers alone.
use ouge_net_lib.Common.{
  ℕ, ◌+◌, ◌≡◌, refl, ap, ◌∙◌, Bool, true, false, Bool-cases, inl, inr, List, [], ◌∷◌, ◌++◌, ◌==◌,
  All, arith, Result, ok, if◌then◌else◌,
}
use ouge_net_lib.Common.Sets.{member, insert, erase, member-insert, member-erase}
use ouge_net_lib.TimerQueue.{
  Timer, TimerQueue, Effect, put, is_earliest, new_timer, deref, delete_timer, cancel_in_loop,
  add_timer_in_loop, reset_timerfd, run_timer,
}
use ouge_net_lib.TimerQueue.Call.{
  Request, adds, cancels, handle_request, handle_requests, run_timers,
}
use ouge_net_lib.TimerQueue.Valid.{
  IsValid, Agree-erase, Agree-put, with_timer, insert_timer-IsValid,
}

-- Timers that live and are in neither set, at different addresses: those that have expired.
abbrev pub IsApart : ℕ → List (ℕ × ℕ) → Type 0
IsApart p es = All (λ (e : ℕ × ℕ). (p == e.1) ≡ false) es

abbrev pub IsOut : TimerQueue → ℕ → Type 0
IsOut q p = (q.alive p ≡ true) × (member (p, (q.heap p).sequence) q.active_timers ≡ false)

abbrev pub Held : TimerQueue → List (ℕ × ℕ) → Type 0
Held q [] = Unit {0}
Held q (e ∷ es) = IsOut q e.1 × IsApart e.1 es × Held q es

-- A change that leaves the timers alone that are in neither set.
abbrev pub Spares : TimerQueue → TimerQueue → Type 0
Spares q r = (p : ℕ) → IsOut q p → IsOut r p × (r.heap p ≡ q.heap p)

pub Spares-Held : (q r : TimerQueue) (es : List (ℕ × ℕ)) → Spares q r → Held q es → Held r es
Spares-Held q r [] s h = tt
Spares-Held q r (e ∷ es) s h = ((s e.1 h.0).0, h.1, Spares-Held q r es s h.2)

pub Spares-trans : (q r s : TimerQueue) → Spares q r → Spares r s → Spares q s
Spares-trans q r s a b p out =
    let (mid, same) = a p out in let (last, same') = b p mid in (last, same' ∙ same)

-- The timers whose callbacks have run, in order.
abbrev pub ran : List Effect → List ℕ
ran [] = []
ran (run_timer p ∷ es) = p ∷ ran es
ran (reset_timerfd t ∷ es) = ran es

-- The call succeeds, runs these timers, keeps the invariant and spares the expired timers.
abbrev pub Serves : TimerQueue → Result (TimerQueue × List Effect) → List ℕ → Type 0
Serves q x ps =
    (r : TimerQueue) × (es : List Effect) × (x ≡ ok (r, es))
    × (ran es ≡ ps)
    × IsValid r
    × Spares q r
    × (r.calling_expired_timers ≡ q.calling_expired_timers)

-- `new` gives an address where no object lives.
add_timer-Serves :
    (p when interval : ℕ) (repeat : Bool) (q : TimerQueue)
    → IsValid q
    → q.alive p ≡ false
    → Serves q (add_timer_in_loop p (new_timer p when interval repeat q)) []
unfolding add_timer_in_loop new_timer
add_timer-Serves p when interval repeat q v free =
    let out : (s : ℕ) → member (p, s) q.active_timers ≡ false =
      λ s. ground (arith, v.listed p s, free) in
    let t : Timer = record {
      expiration = when;
      interval = interval;
      repeat = repeat;
      sequence = q.num_created + 1;
    } in
    let made = new_timer p when interval repeat q in
    let mv : IsValid made = Agree-put p t true v out in
    let (done, w) =
      insert_timer-IsValid p {q = made} mv (ground arith)
        (ground (arith, out (q.num_created + 1))) in
    (
      with_timer p made,
      if is_earliest when q.timers then reset_timerfd when ∷ [] else [],
      ground (arith, done),
      ground arith,
      w,
      λ r h. ground (
        arith,
        h,
        free,
        member-insert (r, (q.heap r).sequence) (p, q.num_created + 1) q.active_timers,
      ),
      refl,
    )

cancel-Serves :
    (p sequence : ℕ) (q : TimerQueue)
    → IsValid q
    → Serves q (handle_request (cancels p sequence) q) []
unfolding handle_request cancel_in_loop delete_timer
cancel-Serves p sequence q v = elim (Bool-cases (member (p, sequence) q.active_timers)) [
  | inl there ↦
      let (up, same, timed) = v.listed p sequence there in
      let there' : member (p, (q.heap p).sequence) q.active_timers ≡ true =
        ap (λ s. member (p, s) q.active_timers) same ∙ there in
      let w = Agree-erase p v there' in
      let gone : (s : ℕ) → member (p, s) (erase (p, (q.heap p).sequence) q.active_timers) ≡ false =
        λ s. ground (
          arith,
          v.listed p s,
          member-erase (p, s) (p, (q.heap p).sequence) q.active_timers v.active_sorted,
        ) in
      let r : TimerQueue = record q {
        alive = put q.alive p false;
        timers = erase ((q.heap p).expiration, p) q.timers;
        active_timers = erase (p, (q.heap p).sequence) q.active_timers;
      } in
      let rv : IsValid r = record {
        timed = λ t x h. ground (arith, w.timed t x h, gone (q.heap x).sequence);
        listed = λ x s h. ground (arith, w.listed x s h, gone s, h);
        timers_sorted = w.timers_sorted;
        active_sorted = w.active_sorted;
        sizes = w.sizes;
      } in
      (
        r,
        [],
        ground (arith, v.sizes, w.sizes, there, up, timed, same),
        refl,
        rv,
        λ x h. ground (
          arith,
          h,
          there',
          member-erase (x, (q.heap x).sequence) (p, (q.heap p).sequence) q.active_timers
              v.active_sorted,
        ),
        refl,
      )
  | inr missing ↦ (
    if q.calling_expired_timers
        then record q { canceling_timers = insert (p, sequence) q.canceling_timers }
        else q,
    [],
    ground (arith, v.sizes, missing),
    refl,
    ground (arith, v),
    λ x h. ground (arith, h),
    ground arith,
  )
]

-- The allocator gives addresses where no object lives.
abbrev pub IsFresh : Request → TimerQueue → Type 0
IsFresh (adds p when interval repeat) q = q.alive p ≡ false
IsFresh (cancels p sequence) q = Unit {0}

abbrev pub Allocates : List Request → TimerQueue → Type 0
Allocates [] q = Unit {0}
Allocates (x ∷ xs) q =
    IsFresh x q
    × ((r : TimerQueue) (es : List Effect) → handle_request x q ≡ ok (r, es) → Allocates xs r)

handle_request-Serves :
    (x : Request) (q : TimerQueue) → IsValid q → IsFresh x q → Serves q (handle_request x q) []
unfolding handle_request
handle_request-Serves (adds p when interval repeat) q v free =
    add_timer-Serves p when interval repeat q v free
handle_request-Serves (cancels p sequence) q v free = cancel-Serves p sequence q v

pub ran-append : (es fs : List Effect) → ran (es ++ fs) ≡ ran es ++ ran fs
ran-append [] fs = refl
ran-append (run_timer p ∷ es) fs = ap (◌∷◌ p) (ran-append es fs)
ran-append (reset_timerfd t ∷ es) fs = ran-append es fs

pub handle_requests-Serves :
    (xs : List Request) (q : TimerQueue)
    → IsValid q
    → Allocates xs q
    → Serves q (handle_requests xs q) []
unfolding handle_requests
handle_requests-Serves [] q v fresh = (q, [], refl, refl, v, λ p out. (out, refl), refl)
handle_requests-Serves (x ∷ xs) q v fresh =
    let (r, es, done, quiet, rv, spares, calling) = handle_request-Serves x q v fresh.0 in
    let (s, fs, done', quiet', sv, spares', calling') =
      handle_requests-Serves xs r rv (fresh.1 r es done) in
    (
      s,
      es ++ fs,
      rw (done, done') refl,
      ran-append es fs ∙ rw (quiet, quiet') refl,
      sv,
      Spares-trans q r s spares spares',
      calling' ∙ calling,
    )

-- The same along the callbacks of the expired timers.
abbrev pub AllocatesAll : (ℕ → List Request) → List (ℕ × ℕ) → TimerQueue → Type 0
AllocatesAll calls [] q = Unit {0}
AllocatesAll calls (e ∷ es) q =
    Allocates (calls e.1) q
    × ((r : TimerQueue) (fs : List Effect)
        → handle_requests (calls e.1) q ≡ ok (r, fs)
        → AllocatesAll calls es r)

abbrev pub addresses : List (ℕ × ℕ) → List ℕ
addresses [] = []
addresses (e ∷ es) = e.1 ∷ addresses es

-- The callbacks of timers that live and are in neither set run in order, whatever they add and cancel.
pub run_timers-Serves :
    (calls : ℕ → List Request) (es : List (ℕ × ℕ)) (q : TimerQueue)
    → IsValid q
    → Held q es
    → AllocatesAll calls es q
    → Serves q (run_timers calls es q) (addresses es)
unfolding run_timers
run_timers-Serves calls [] q v held fresh = (q, [], refl, refl, v, λ p out. (out, refl), refl)
run_timers-Serves calls (e ∷ es) q v held fresh =
    let (r, fs, done, quiet, rv, spares, calling) =
      handle_requests-Serves (calls e.1) q v fresh.0 in
    let (s, gs, done', there, sv, spares', calling') =
      run_timers-Serves calls es r rv (Spares-Held q r es spares held.2) (fresh.1 r fs done) in
    (
      s,
      run_timer e.1 ∷ (fs ++ gs),
      rw (held.0.0, done, done', deref) refl,
      ap (◌∷◌ e.1) (ran-append fs gs ∙ rw (quiet, there) refl),
      sv,
      Spares-trans q r s spares spares',
      calling' ∙ calling,
    )
