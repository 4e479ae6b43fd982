-- ===== src/ThreadPool/Ends.antt =====
-- After `stop` every thread comes to its end, so that the joins return.
use ouge_net_lib.Common.{
  ℕ, zero, suc, ◌+◌, ◌*◌, ◌≤◌, ◌≡◌, refl, ap, ◌∙◌, subst, true, false, ◌⊎◌, inl, inr, Bool-cases,
  Option, none, some, Option-cases, List, [], ◌∷◌, length, get_elem?, arith,
}
use ouge_net_lib.ThreadPool.{
  Worker, at_test, at_take, asleep, in_task, ended, Caller, ThreadPool, is_asleep, wake_all, stop,
  is_full, is_empty, enter, run, take, work, work_of, set_worker, is_ended, all_ended, wake_of,
  pick_woken,
}
use ouge_net_lib.ThreadPool.Sleepers.{
  sleeper, sleepers, wake_one_awake, wake_all_awake, sleepers-wake_all, length-wake_all,
  sleepers-set_worker, placed_lem,
}
use ouge_net_lib.ThreadPool.Runs.{Event, submits, resumes, works, wakes, wakes_call, stops, act}

-- A pool that was stopped, where nobody sleeps.
pub record IsStopped (p : ThreadPool) : Type 0 where
  pub off : p.running ≡ false
  pub awake : sleepers p.threads ≡ 0

stop-IsStopped : (p : ThreadPool) → IsStopped (stop p)
unfolding stop
stop-IsStopped p = record { off = refl; awake = sleepers-wake_all p.threads }

-- How many steps a thread of a stopped pool has left, at most.
abbrev pub weight : Worker → ℕ
weight at_test = 1
weight at_take = 3
weight (in_task t) = 2
weight asleep = 3
weight ended = 0

abbrev pub weights : List Worker → ℕ
weights [] = 0
weights (w ∷ ws) = weight w + weights ws

abbrev pub steps_of : Event → ℕ
steps_of (works k i) = 1
steps_of (wakes i) = 1
steps_of _ = 0

-- A run in which the threads make this many steps.
pub data Counted (p : ThreadPool) : ThreadPool → ℕ → Type 0 where
  here : Counted p p 0
  next :
      {q r : ThreadPool} {n : ℕ}
      → Counted p q n
      → (e : Event) → act e q ≡ some r
      → Counted p r (n + steps_of e)

weights_most : (ws : List Worker) → weights ws ≤ 3 * length ws
weights_most [] = omega arith
weights_most (at_test ∷ ws) = omega (arith, weights_most ws)
weights_most (at_take ∷ ws) = omega (arith, weights_most ws)
weights_most (in_task t ∷ ws) = omega (arith, weights_most ws)
weights_most (asleep ∷ ws) = omega (arith, weights_most ws)
weights_most (ended ∷ ws) = omega (arith, weights_most ws)

weights-set_worker :
    (i : ℕ) (v w : Worker) (ws : List Worker)
    → get_elem? ws i ≡ some v
    → weights (set_worker i w ws) + weight v ≡ weights ws + weight w
weights-set_worker i v w [] h = absurd (ground (arith, h))
weights-set_worker zero v w (u ∷ ws) h =
    let same : u ≡ v = ground (arith, h) in rw same (omega arith)
weights-set_worker (suc i) v w (u ∷ ws) h = omega (arith, weights-set_worker i v w ws h)

-- A step of a thread of a stopped pool.
work_lighter :
    (k : ℕ) (w v : Worker) (p q : ThreadPool)
    → p.running ≡ false
    → work k w p ≡ some (v, q)
    → (suc (weight v) ≤ weight w)
      × (sleeper v ≡ 0)
      × (sleeper w ≡ 0)
      × (q.running ≡ false)
      × (q.threads ≡ p.threads)
unfolding work take
work_lighter k w v p q off h = ground (arith, off, h)

-- A thread that has not ended and does not sleep can make a step.
work_moves :
    (k : ℕ) (w : Worker) (p : ThreadPool)
    → is_ended w ≡ false
    → is_asleep w ≡ false
    → (v : Worker) × (q : ThreadPool) × (work k w p ≡ some (v, q))
unfolding work
work_moves k at_test p on up = (_, _, refl)
work_moves k at_take p on up = (_, _, refl)
work_moves k (in_task t) p on up = (_, _, refl)
work_moves k asleep p on up = absurd (ground (arith, up))
work_moves k ended p on up = absurd (ground (arith, on))

-- What an event leaves of a stopped pool.
record Lighter (p q : ThreadPool) (n : ℕ) : Type 0 where
  lighter : weights q.threads + n ≤ weights p.threads
  stopped : IsStopped q

same_threads :
    (p q : ThreadPool) → IsStopped p → q.running ≡ false → q.threads ≡ p.threads → Lighter p q 0
same_threads p q v off same = record {
  lighter = omega (arith, ap weights same);
  stopped = record { off = off; awake = ap sleepers same ∙ v.awake };
}

enter-Lighter :
    (k t : ℕ) (cs : List Caller) (p : ThreadPool)
    → IsStopped p
    → Lighter p (enter k t (record p { callers = cs })) 0
unfolding enter is_full
enter-Lighter k t cs p v =
    same_threads p (enter k t (record p { callers = cs })) v (ground (arith, v.off))
      (ground (arith, wake_one_awake k p.threads v.awake))

works-Lighter :
    (k i : ℕ) (o : Option Worker) (p q : ThreadPool)
    → IsStopped p
    → get_elem? p.threads i ≡ o
    → work_of k i o p ≡ some q
    → Lighter p q 1
works-Lighter k i none p q v there h = absurd (ground (arith, h))
works-Lighter k i (some w) p q v there h =
    let (u, r, done, same) = placed_lem i (work k w p) q h in
    let (less, up, was, still, kept) = work_lighter k w u p r v.off done in
    let total = weights-set_worker i w u p.threads there in
    let asleep = sleepers-set_worker i w u p.threads there in
    rw same (record {
      lighter = rw kept (omega (arith, less, total));
      stopped = record { off = still; awake = rw kept (omega (arith, asleep, up, was, v.awake)) };
    })

up_worker :
    (i : ℕ) (w : Worker) (ws : List Worker)
    → get_elem? ws i ≡ some w
    → sleepers ws ≡ 0
    → is_asleep w ≡ false
up_worker i w [] h up = absurd (ground (arith, h))
up_worker zero w (v ∷ ws) h up = ground (arith, h, up)
up_worker (suc i) w (v ∷ ws) h up = up_worker i w ws h (omega (arith, up))

nobody_wakes :
    (i : ℕ) (o : Option Worker) (p : ThreadPool)
    → get_elem? p.threads i ≡ o
    → sleepers p.threads ≡ 0
    → wake_of i o p ≡ none
nobody_wakes i none p there up = refl
nobody_wakes i (some w) p there up = ground (arith, up_worker i w p.threads there up)

act-Lighter :
    (e : Event) (p q : ThreadPool) → IsStopped p → act e p ≡ some q → Lighter p q (steps_of e)
unfolding run stop
act-Lighter (submits k t) p q v h = elim (Bool-cases (is_empty p.threads)) [
  | inl alone ↦ same_threads p q v (ground (arith, h, alone, v.off)) (ground (arith, h, alone))
  | inr served ↦
      let same : enter k t p ≡ q = ground (arith, h, served) in
      subst (λ r. Lighter p r 0) same (enter-Lighter k t p.callers p v)
]
act-Lighter (resumes k j) p q v h = elim (Option-cases (pick_woken j p.callers)) [
  | inl nobody ↦ absurd (ground (arith, h, nobody))
  | inr ((t, cs), found) ↦
      let same : enter k t (record p { callers = cs }) ≡ q = ground (arith, h, found) in
      subst (λ r. Lighter p r 0) same (enter-Lighter k t cs p v)
]
act-Lighter (works k i) p q v h = works-Lighter k i (get_elem? p.threads i) p q v refl h
act-Lighter (wakes i) p q v h =
    absurd (ground (arith, h, nobody_wakes i (get_elem? p.threads i) p refl v.awake))
act-Lighter (wakes_call j) p q v h =
    same_threads p q v (ground (arith, h, v.off)) (ground (arith, h))
act-Lighter stops p q v h =
    same_threads p q v (ground (arith, h)) (ground (arith, h, wake_all_awake p.threads v.awake))

find_worker :
    (ws : List Worker)
    → all_ended ws ≡ false
    → sleepers ws ≡ 0
    → (i : ℕ) × (w : Worker) × (get_elem? ws i ≡ some w)
      × (is_ended w ≡ false)
      × (is_asleep w ≡ false)
find_worker [] h up = absurd (ground (arith, h))
find_worker (w ∷ ws) h up = elim (Bool-cases (is_ended w)) [
  | inr on ↦ (0, w, refl, on, ground (arith, up))
  | inl off ↦
      let (i, v, there, on, awake) = find_worker ws (ground (arith, h, off)) (omega (arith, up)) in
      (suc i, v, there, on, awake)
]

Counted-weights : {p q : ThreadPool} {n : ℕ} → IsStopped p → Counted p q n → Lighter p q n
Counted-weights v here = record { lighter = omega arith; stopped = v }
Counted-weights v (next {q} {r} before e h) =
    let first = Counted-weights v before in
    let last = act-Lighter e q r first.stopped h in
    record { lighter = omega (arith, first.lighter, last.lighter); stopped = last.stopped }

-- After `stop`, whichever threads slept before it, the threads make at most three steps for each of
-- them, where a whole task is one step, whatever the callers do; and as long as a thread has not
-- ended, some thread can make a step. So they neither go on for ever nor are stuck, and the joins of
-- `stop` return.
pub Counted-ends :
    (p : ThreadPool) {q : ThreadPool} {n : ℕ}
    → Counted (stop p) q n
    → (n ≤ 3 * length p.threads)
      × ((all_ended q.threads ≡ true) ⊎ ((i : ℕ) × (r : ThreadPool) × (act (works 0 i) q ≡ some r)))
unfolding stop
Counted-ends p {q} counted =
    let after = Counted-weights (stop-IsStopped p) counted in
    (
      omega (arith, after.lighter, weights_most (wake_all p.threads), length-wake_all p.threads),
      elim (Bool-cases (all_ended q.threads)) [
        | inl done ↦ inl done
        | inr going ↦
            let (i, w, there, on, up) = find_worker q.threads going after.stopped.awake in
            let (v, r, moves) = work_moves 0 w q on up in
            inr (i, record r { threads = set_worker i v r.threads }, ground (arith, there, moves))
      ],
    )
