-- ===== src/ThreadPool/Wakes.antt =====
-- The notifications of `notEmpty_` in base/ThreadPool.cc and the tasks that wait in its queue.
use ouge_net_lib.Common.{
  ℕ, zero, suc, ◌+◌, ◌≤◌, ◌≡◌, refl, ap, subst, Bool, true, false, ◌⊎◌, inl, inr, Bool-cases,
  Option, none, some, Option-cases, List, [], ◌∷◌, length, length-append, get_elem?, replicate,
  arith, ok, ◌-◌, Ensures, Ensures-ok,
}
use ouge_net_lib.ThreadPool.{
  Worker, at_test, at_take, asleep, in_task, ended, Caller, ThreadPool, some_asleep, wake_one,
  start, stop, is_full, is_empty, enter, run, take, work, work_of, set_worker, wake_of, pick_woken,
}
use ouge_net_lib.ThreadPool.Runs.{
  Event, submits, resumes, works, wakes, wakes_call, stops, act, begun, Run, here, next,
}
use ouge_net_lib.ThreadPool.Sleepers.{
  sleeper, sleepers, sleepers-set_worker, placed_lem, sleepers-wake_all,
}

-- How many threads are about to take.
abbrev pub taker : Worker → ℕ
taker at_take = 1
taker _ = 0

abbrev pub takers : List Worker → ℕ
takers [] = 0
takers (w ∷ ws) = taker w + takers ws

-- Nobody sleeps, or as many threads are about to take as tasks wait.
abbrev pub IsAwake : ThreadPool → Type 0
IsAwake p = (sleepers p.threads ≡ 0) ⊎ (length p.queue ≤ takers p.threads)

takers-set_worker :
    (i : ℕ) (v w : Worker) (ws : List Worker)
    → get_elem? ws i ≡ some v
    → takers (set_worker i w ws) + taker v ≡ takers ws + taker w
takers-set_worker i v w [] h = absurd (ground (arith, h))
takers-set_worker zero v w (u ∷ ws) h =
    let same : u ≡ v = ground (arith, h) in rw same (omega arith)
takers-set_worker (suc i) v w (u ∷ ws) h = omega (arith, takers-set_worker i v w ws h)

no_sleepers : (ws : List Worker) → some_asleep ws ≡ false → sleepers ws ≡ 0
no_sleepers [] h = refl
no_sleepers (w ∷ ws) h = ground (arith, h, no_sleepers ws)

some_sleepers : (ws : List Worker) → some_asleep ws ≡ true → 1 ≤ sleepers ws
some_sleepers [] h = absurd (ground (arith, h))
some_sleepers (w ∷ ws) h = ground (arith, h, some_sleepers ws)

-- A notification wakes exactly one thread where any sleeps.
wake_one-sleepers :
    (k : ℕ) (ws : List Worker)
    → ((sleepers ws ≡ 0) × (sleepers (wake_one k ws) ≡ 0))
      ⊎ ((sleepers ws ≡ suc (sleepers (wake_one k ws)))
          × (takers (wake_one k ws) ≡ suc (takers ws)))
wake_one-sleepers k [] = inl (refl, refl)
wake_one-sleepers k (w ∷ ws) =
    ground (
      arith,
      no_sleepers ws,
      wake_one-sleepers k ws,
      wake_one-sleepers (k - 1) ws,
      some_sleepers ws,
    )

enter-IsAwake :
    (k t : ℕ) (cs : List Caller) (p : ThreadPool)
    → IsAwake p
    → IsAwake (enter k t (record p { callers = cs }))
unfolding enter is_full
enter-IsAwake k t cs p v =
    ground (arith, v, wake_one-sleepers k p.threads, length-append p.queue (t ∷ []))

-- A step of a thread takes its task along, or leaves an empty queue.
work_lem :
    (k : ℕ) (w u : Worker) (p r : ThreadPool)
    → work k w p ≡ some (u, r)
    → (r.threads ≡ p.threads)
      × (sleeper w ≡ 0)
      × ((length r.queue ≡ 0)
          ⊎ ((sleeper u ≡ 0) × (length r.queue + taker w ≤ length p.queue + taker u)))
unfolding work take
work_lem k w u p r h = ground (arith, h)

work-IsAwake :
    (k i : ℕ) (o : Option Worker) (p q : ThreadPool)
    → IsAwake p
    → get_elem? p.threads i ≡ o
    → work_of k i o p ≡ some q
    → IsAwake q
work-IsAwake k i none p q v there h = absurd (ground (arith, h))
work-IsAwake k i (some w) p q v there h =
    let (u, r, done, same) = placed_lem i (work k w p) q h in
    let (kept, up, fewer) = work_lem k w u p r done in
    let s = sleepers-set_worker i w u p.threads there in
    let t = takers-set_worker i w u p.threads there in
    rw (same, kept) (ground (arith, v, up, fewer, s, t))

wake-IsAwake :
    (i : ℕ) (o : Option Worker) (p q : ThreadPool)
    → IsAwake p
    → get_elem? p.threads i ≡ o
    → wake_of i o p ≡ some q
    → IsAwake q
wake-IsAwake i none p q v there h = absurd (ground (arith, h))
wake-IsAwake i (some w) p q v there h = ground (
  arith,
  h,
  v,
  sleepers-set_worker i w at_take p.threads there,
  takers-set_worker i w at_take p.threads there,
)

act-IsAwake : (e : Event) (p q : ThreadPool) → IsAwake p → act e p ≡ some q → IsAwake q
unfolding run stop
act-IsAwake (submits k t) p q v h = elim (Bool-cases (is_empty p.threads)) [
  | inl alone ↦ ground (arith, h, alone, v)
  | inr served ↦
      let same : enter k t p ≡ q = ground (arith, h, served) in
      subst IsAwake same (enter-IsAwake k t p.callers p v)
]
act-IsAwake (resumes k j) p q v h = elim (Option-cases (pick_woken j p.callers)) [
  | inl nobody ↦ absurd (ground (arith, h, nobody))
  | inr ((t, cs), found) ↦
      let same : enter k t (record p { callers = cs }) ≡ q = ground (arith, h, found) in
      subst IsAwake same (enter-IsAwake k t cs p v)
]
act-IsAwake (works k i) p q v h = work-IsAwake k i (get_elem? p.threads i) p q v refl h
act-IsAwake (wakes i) p q v h = wake-IsAwake i (get_elem? p.threads i) p q v refl h
act-IsAwake (wakes_call j) p q v h = ground (arith, h, v)
act-IsAwake stops p q v h = ground (arith, h, sleepers-wake_all p.threads)

sleepers-replicate : (n : ℕ) → sleepers (replicate n at_test) ≡ 0
sleepers-replicate zero = refl
sleepers-replicate (suc n) = omega (arith, sleepers-replicate n)

start-IsAwake :
    (n : ℕ) (cb_set : Bool) (p : ThreadPool) → Ensures (start n cb_set p) (λ d. IsAwake d.0)
unfolding start
start-IsAwake n cb_set p = ground (arith, sleepers-replicate n)

Run-IsAwake : {p q : ThreadPool} {ins outs : List ℕ} → IsAwake p → Run p q ins outs → IsAwake q
Run-IsAwake v here = v
Run-IsAwake v (next {q} {r} before e h) = act-IsAwake e q r (Run-IsAwake v before) h

find_taker : (ws : List Worker) → 1 ≤ takers ws → (i : ℕ) × (get_elem? ws i ≡ some at_take)
find_taker [] h = absurd (omega (arith, h))
find_taker (at_take ∷ ws) h = (0, refl)
find_taker (at_test ∷ ws) h = let (i, e) = find_taker ws (omega (arith, h)) in (suc i, e)
find_taker (asleep ∷ ws) h = let (i, e) = find_taker ws (omega (arith, h)) in (suc i, e)
find_taker (ended ∷ ws) h = let (i, e) = find_taker ws (omega (arith, h)) in (suc i, e)
find_taker (in_task t ∷ ws) h = let (i, e) = find_taker ws (omega (arith, h)) in (suc i, e)

-- The step of a thread that is about to take the task at the front.
taker_begins :
    (i task : ℕ) (tasks : List ℕ) (q : ThreadPool)
    → get_elem? q.threads i ≡ some at_take
    → q.queue ≡ task ∷ tasks
    → (r : ThreadPool) × (act (works 0 i) q ≡ some r)
      × (begun (works 0 i) q ≡ task ∷ [])
      × (r.queue ≡ tasks)
unfolding work take
taker_begins i task tasks q there front_of = rw (there, front_of) (_, refl, refl, refl)

-- Along any interleaving after `start`: where a task is at the front of the queue and a thread sleeps, some
-- other thread is about to take, and its next step begins that task. So no task waits for a thread
-- that nobody wakes, whichever thread each `notify_one` wakes.
pub start-begun :
    (n : ℕ) (cb_set : Bool) (p : ThreadPool) {calls_back : Bool} {s q : ThreadPool}
    {ins outs : List ℕ} {task : ℕ} {tasks : List ℕ}
    → start n cb_set p ≡ ok (s, calls_back)
    → Run s q ins outs
    → q.queue ≡ task ∷ tasks
    → some_asleep q.threads ≡ true
    → (i : ℕ) × (r : ThreadPool) × (act (works 0 i) q ≡ some r)
      × (begun (works 0 i) q ≡ task ∷ [])
      × (r.queue ≡ tasks)
start-begun n cb_set p {calls_back} {s} {q} {task} {tasks} started interleaved front_of sleeps =
    let v =
      Run-IsAwake
        (Ensures-ok (start n cb_set p) (λ d. IsAwake d.0) (s, calls_back) (start-IsAwake n cb_set p)
          started)
        interleaved in
    let some_taker : 1 ≤ takers q.threads =
      ground (arith, v, some_sleepers q.threads sleeps, ap length front_of) in
    let (i, there) = find_taker q.threads some_taker in
    let (r, stepped, front_task, rest) = taker_begins i task tasks q there front_of in
    (i, r, stepped, front_task, rest)
