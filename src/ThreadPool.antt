-- ===== src/ThreadPool.antt =====
-- base/ThreadPool.h and base/ThreadPool.cc: worker threads that take tasks from a bounded queue. A
-- task is a number. What runs under the mutex is one step. Who waits on a condition whose predicate is
-- false sleeps, and runs again only after a notification, or spuriously, to test the predicate again;
-- which sleeper a `notify_one` wakes is an argument.
pub mod Runs
pub mod Sleepers
pub mod Ends
pub mod Wakes
mod Examples
use ouge_net_lib.Common.{
  ℕ, zero, suc, ◌-◌, ◌||◌, Bool, true, false, ◌&&◌, not, Option, none, some, List, [], ◌∷◌, ◌++◌,
  length, ltb, leb, drop, replicate, ◌==◌, if◌then◌else◌, Result, ok, ◌>>=◌, ◌>>◌, assert,
}

-- Where a thread stands in `runInThread`: at the test of `running_`, at the test of the predicate in
-- `take`, asleep on `notEmpty_`, in a task, or behind the loop.
pub data Worker : Type 0 where
  at_test at_take asleep ended : Worker
  in_task : ℕ → Worker

-- A call of `run` that waits on `notFull_` with its task, or was woken there.
pub data Caller : Type 0 where
  blocked woken : ℕ → Caller

pub record ThreadPool : Type 0 where
  pub threads : List Worker
  pub callers : List Caller
  pub queue : List ℕ
  pub max_queue_size : ℕ
  pub running : Bool

unfoldable pub new_thread_pool : ThreadPool
new_thread_pool = record {
  threads = [];
  callers = [];
  queue = [];
  max_queue_size = 0;
  running = false;
}

-- `notEmpty_.notify_one ()`: of the threads that sleep, the one of number `k` wakes, or the last one.
abbrev pub is_asleep : Worker → Bool
is_asleep asleep = true
is_asleep _ = false

abbrev pub some_asleep : List Worker → Bool
some_asleep [] = false
some_asleep (w ∷ ws) = is_asleep w || some_asleep ws

abbrev pub wake_one : ℕ → List Worker → List Worker
wake_one k [] = []
wake_one k (w ∷ ws) =
    let here = at_take ∷ ws in
    let later = w ∷ wake_one (k - 1) ws in
    let same = w ∷ wake_one k ws in
    if is_asleep w then (if k == 0 || not (some_asleep ws) then here else later) else same

-- `notEmpty_.notify_all ()`
abbrev pub wake_all : List Worker → List Worker
wake_all [] = []
wake_all (w ∷ ws) = (if is_asleep w then at_take else w) ∷ wake_all ws

-- `notFull_.notify_one ()`
abbrev pub is_blocked : Caller → Bool
is_blocked (blocked t) = true
is_blocked (woken t) = false

abbrev pub some_blocked : List Caller → Bool
some_blocked [] = false
some_blocked (c ∷ cs) = is_blocked c || some_blocked cs

abbrev pub wake_caller : ℕ → List Caller → List Caller
wake_caller k [] = []
wake_caller k (woken t ∷ cs) = woken t ∷ wake_caller k cs
wake_caller k (blocked t ∷ cs) =
    let later = blocked t ∷ wake_caller (k - 1) cs in
    if k == 0 || not (some_blocked cs) then woken t ∷ cs else later

abbrev pub is_empty {ℓ} : {A : Type ℓ} → List A → Bool
is_empty [] = true
is_empty (x ∷ xs) = false

-- The pool, and whether the callback runs in the caller's thread; each thread runs it otherwise.
unfoldable pub start : ℕ → Bool → ThreadPool → Result (ThreadPool × Bool)
start num_threads cb_set p = do
  assert (is_empty p.threads)
  assert (not p.running)
  ok (
    record p { running = true; threads = replicate num_threads at_test },
    num_threads == 0 && cb_set,
  )

-- `stop` up to the joins.
unfoldable pub stop : ThreadPool → ThreadPool
stop p = record p { running = false; threads = wake_all p.threads }

abbrev pub is_ended : Worker → Bool
is_ended ended = true
is_ended _ = false

-- Whether the joins of `stop` return.
abbrev pub all_ended : List Worker → Bool
all_ended [] = true
all_ended (w ∷ ws) = is_ended w && all_ended ws

unfoldable pub queue_size : ThreadPool → ℕ
queue_size p = length p.queue

unfoldable pub is_full : ThreadPool → Bool
is_full p = ltb 0 p.max_queue_size && leb p.max_queue_size (length p.queue)

-- `run` behind the lock: the caller waits on `notFull_`, or queues its task and notifies a thread. The
-- `assert` behind the wait repeats its predicate, under the same lock.
unfoldable pub enter : ℕ → ℕ → ThreadPool → ThreadPool
unfolding is_full
enter k task p =
    if is_full p
    then record p { callers = p.callers ++ blocked task ∷ [] }
    else record p { queue = p.queue ++ task ∷ []; threads = wake_one k p.threads }

-- The pool, and the tasks that the caller runs itself.
unfoldable pub run : ℕ → ℕ → ThreadPool → ThreadPool × List ℕ
unfolding enter
run k task p = if is_empty p.threads then (p, task ∷ []) else (enter k task p, [])

abbrev pub front : List ℕ → Option ℕ
front [] = none
front (t ∷ ts) = some t

-- None where the thread waits.
unfoldable pub take : ℕ → ThreadPool → Option (Option ℕ × ThreadPool)
take k p =
    if is_empty p.queue && p.running
    then none
    else some (
      front p.queue,
      record p {
        queue = drop 1 p.queue;
        callers =
            if not (is_empty p.queue) && ltb 0 p.max_queue_size
            then wake_caller k p.callers
            else p.callers;
      },
    )

-- `if (task) { task (); }`
abbrev pub after_take : Option ℕ → Worker
after_take none = at_test
after_take (some t) = in_task t

-- The next step of a thread that does not sleep: its place and the pool after it.
abbrev pub taken_step : ThreadPool → Option (Option ℕ × ThreadPool) → Worker × ThreadPool
taken_step p none = (asleep, p)
taken_step p (some (t, q)) = (after_take t, q)

unfoldable pub work : ℕ → Worker → ThreadPool → Option (Worker × ThreadPool)
unfolding take
work k at_test p = some (if p.running then at_take else ended, p)
work k at_take p = some (taken_step p (take k p))
work k (in_task t) p = some (at_test, p)
work k asleep p = none
work k ended p = none

-- The thread of number `i` makes a step.
abbrev pub set_worker : ℕ → Worker → List Worker → List Worker
set_worker i w [] = []
set_worker zero w (v ∷ vs) = w ∷ vs
set_worker (suc i) w (v ∷ vs) = v ∷ set_worker i w vs

abbrev pub placed : ℕ → Option (Worker × ThreadPool) → Option ThreadPool
placed i none = none
placed i (some (w, p)) = some (record p { threads = set_worker i w p.threads })

abbrev pub work_of : ℕ → ℕ → Option Worker → ThreadPool → Option ThreadPool
work_of k i none p = none
work_of k i (some w) p = placed i (work k w p)

-- A thread that sleeps wakes without a notification.
abbrev pub wake_of : ℕ → Option Worker → ThreadPool → Option ThreadPool
wake_of i (some asleep) p = some (record p { threads = set_worker i at_take p.threads })
wake_of i _ p = none

-- The call of number `j` that was woken, and the others.
abbrev pub pick_woken : ℕ → List Caller → Option (ℕ × List Caller)
pick_woken j [] = none
pick_woken zero (woken t ∷ cs) = some (t, cs)
pick_woken zero (blocked t ∷ cs) = none
pick_woken (suc j) (c ∷ cs) = elim (pick_woken j cs) [
  | none ↦ none
  | some (t, ds) ↦ some (t, c ∷ ds)
]

-- It tests its predicate again.
abbrev pub resume : ℕ → Option (ℕ × List Caller) → ThreadPool → Option ThreadPool
resume k none p = none
resume k (some (t, cs)) p = some (enter k t (record p { callers = cs }))

-- The call of number `j` that waits wakes without a notification.
abbrev pub wake_call : ℕ → List Caller → List Caller
wake_call j [] = []
wake_call zero (blocked t ∷ cs) = woken t ∷ cs
wake_call zero (woken t ∷ cs) = woken t ∷ cs
wake_call (suc j) (c ∷ cs) = c ∷ wake_call j cs
