-- ===== src/ThreadPool/Runs.antt =====
-- Threads and callers in any order: what is queued is taken in order, once.
use ouge_net_lib.Common.{
  ℕ, ◌≤◌, ◌≡◌, refl, sym, ap, ◌∙◌, subst, Bool-cases, inl, inr, ◌⊎◌, Option, none, some, List, [],
  ◌∷◌, ◌++◌, append-nil, append_assoc, length, length-append, get_elem?, arith, if◌then◌else◌,
}
use ouge_net_lib.ThreadPool.{
  Worker, at_take, Caller, ThreadPool, stop, is_full, is_empty, enter, run, take, front, work,
  work_of, wake_of, pick_woken, resume, wake_call,
}

-- A call of `run` with a task, a call that was woken, a step of a thread, `stop`, and the two wakings
-- without a notification; the first number chooses whom a notification wakes.
pub data Event : Type 0 where
  submits resumes works : ℕ → ℕ → Event
  wakes wakes_call : ℕ → Event
  stops : Event

-- The pool after it, none where it cannot happen.
abbrev pub act : Event → ThreadPool → Option ThreadPool
act (submits k t) p = some (run k t p).0
act (resumes k j) p = resume k (pick_woken j p.callers) p
act (works k i) p = work_of k i (get_elem? p.threads i) p
act (wakes i) p = wake_of i (get_elem? p.threads i) p
act (wakes_call j) p = some (record p { callers = wake_call j p.callers })
act stops p = some (stop p)

-- What a call puts into the queue.
abbrev pub entered : ℕ → ThreadPool → List ℕ
entered t p = if is_full p then [] else t ∷ []

abbrev pub resumed : Option (ℕ × List Caller) → ThreadPool → List ℕ
resumed none p = []
resumed (some (t, cs)) p = entered t p

abbrev pub queued : Event → ThreadPool → List ℕ
queued (submits k t) p = if is_empty p.threads then [] else entered t p
queued (resumes k j) p = resumed (pick_woken j p.callers) p
queued _ p = []

-- The task that a thread begins.
abbrev pub takes : Option Worker → ThreadPool → List ℕ
takes (some at_take) p = elim (front p.queue) [ none ↦ [] | some t ↦ t ∷ [] ]
takes _ p = []

abbrev pub begun : Event → ThreadPool → List ℕ
begun (works k i) p = takes (get_elem? p.threads i) p
begun _ p = []

pub data Run (p : ThreadPool) : ThreadPool → List ℕ → List ℕ → Type 0 where
  here : Run p p [] []
  next :
      {q r : ThreadPool} {ins outs : List ℕ}
      → Run p q ins outs
      → (e : Event) → act e q ≡ some r
      → Run p r (ins ++ queued e q) (outs ++ begun e q)

-- The bound that the user set.
abbrev pub IsBounded : ThreadPool → Type 0
IsBounded p = (p.max_queue_size ≡ 0) ⊎ (length p.queue ≤ p.max_queue_size)

record Steps (p q : ThreadPool) (ins outs : List ℕ) : Type 0 where
  order : p.queue ++ ins ≡ outs ++ q.queue
  size_kept : q.max_queue_size ≡ p.max_queue_size
  bounded : IsBounded p → IsBounded q

-- A step that leaves the queue alone.
same-Steps :
    (p q : ThreadPool) → q.queue ≡ p.queue → q.max_queue_size ≡ p.max_queue_size → Steps p q [] []
same-Steps p q same size = record {
  order = append-nil p.queue ∙ sym same;
  size_kept = size;
  bounded = λ b. ground (arith, b, same, size);
}

enter-Steps : (k t : ℕ) (p : ThreadPool) → Steps p (enter k t p) (entered t p) []
unfolding enter is_full
enter-Steps k t p = record {
  order = ground (arith, append-nil p.queue);
  size_kept = ground arith;
  bounded = λ b. ground (arith, b, length-append p.queue (t ∷ []));
}

work-Steps :
    (k i : ℕ) (w : Option Worker) (p q : ThreadPool)
    → work_of k i w p ≡ some q
    → Steps p q [] (takes w p)
unfolding work take
work-Steps k i w p q e = record {
  order = ground (arith, e, append-nil p.queue);
  size_kept = ground (arith, e);
  bounded = λ b. ground (arith, e, b);
}

run-Steps : (k t : ℕ) (p : ThreadPool) → Steps p (run k t p).0 (queued (submits k t) p) []
unfolding run
run-Steps k t p = elim (Bool-cases (is_empty p.threads)) [
  | inl alone ↦ rw alone (same-Steps p p refl refl)
  | inr served ↦ rw served (enter-Steps k t p)
]

resume-Steps :
    (k : ℕ) (o : Option (ℕ × List Caller)) (p q : ThreadPool)
    → resume k o p ≡ some q
    → Steps p q (resumed o p) []
unfolding is_full
resume-Steps k none p q e = absurd (ground (arith, e))
resume-Steps k (some (t, cs)) p q e =
    let same : enter k t (record p { callers = cs }) ≡ q = ground (arith, e) in
    let steps = enter-Steps k t (record p { callers = cs }) in
    subst (λ r. Steps p r (entered t p) []) same
      (record { order = steps.order; size_kept = steps.size_kept; bounded = steps.bounded })

act-Steps : (e : Event) (p q : ThreadPool) → act e p ≡ some q → Steps p q (queued e p) (begun e p)
unfolding stop
act-Steps (submits k t) p q h =
    subst (λ r. Steps p r (queued (submits k t) p) []) (ground (arith, h)) (run-Steps k t p)
act-Steps (resumes k j) p q h = resume-Steps k (pick_woken j p.callers) p q h
act-Steps (works k i) p q h = work-Steps k i (get_elem? p.threads i) p q h
act-Steps (wakes i) p q h = same-Steps p q (ground (arith, h)) (ground (arith, h))
act-Steps (wakes_call j) p q h = same-Steps p q (ground (arith, h)) (ground (arith, h))
act-Steps stops p q h = same-Steps p q (ground (arith, h)) (ground (arith, h))

-- In every interleaving of callers, threads, their wakings and `stop`, the tasks that waited at the start and those
-- that `run` queued are the tasks that the threads begin and those that still wait, in this order:
-- none is lost, repeated or overtaken. A queue within the bound stays within it.
pub Run-tasks :
    {p q : ThreadPool} {ins outs : List ℕ}
    → IsBounded p
    → Run p q ins outs
    → (p.queue ++ ins ≡ outs ++ q.queue) × IsBounded q
Run-tasks {p} b here = (append-nil p.queue, b)
Run-tasks {p} b (next {q} {r} {ins} {outs} before e h) =
    let (order, within) = Run-tasks b before in
    let step = act-Steps e q r h in
    (
      sym (append_assoc p.queue ins (queued e q))
          ∙ ap (λ xs. xs ++ queued e q) order
          ∙ append_assoc outs q.queue (queued e q)
          ∙ ap (◌++◌ outs) step.order
          ∙ sym (append_assoc outs (begun e q) r.queue),
      step.bounded within,
    )
