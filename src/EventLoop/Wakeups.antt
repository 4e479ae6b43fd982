-- ===== src/EventLoop/Wakeups.antt =====
-- Interleavings of the loop's thread with others: every functor runs once and in order, and no
-- wake-up is lost. Another thread pushes its functor, or sets `quit_`, in one step and wakes the
-- loop in a later one; `owed` counts the wake-ups that are still to come.
use ouge_net_lib.Common.{
  ℕ, ◌+◌, ◌-◌, ◌<◌, ◌≡◌, ◌⊎◌, inl, inr, refl, sym, ap, ◌∙◌, Bool, true, false, Bool-cases, ◌||◌,
  List, [], ◌∷◌, ◌++◌, append-nil, append_assoc, arith, length, take, drop,
}
use ouge_net_lib.EventLoop.{
  EventLoop, start_looping, wakeup, handle_read, push_functor, queue_in_loop, set_quit, quit,
  begin_events, begin_functors, next_functor, end_functors,
}

pub record System : Type 0 where
  pub loop : EventLoop
  pub owed : ℕ

-- The steps of the loop's thread, and of another one.
pub data Action : Type 0 where
  begins_loop polls reads_wakeup begins_functors runs ends_functors quits_here : Action
  queues_here queues_elsewhere : ℕ → Action
  quits_elsewhere wakes : Action

abbrev pub act : Action → System → System
act begins_loop s = record s { loop = start_looping s.loop }
act polls s = record s { loop = begin_events s.loop }
act reads_wakeup s = record s { loop = handle_read s.loop }
act begins_functors s = record s { loop = begin_functors s.loop }
act runs s = record s { loop = next_functor s.loop }
act ends_functors s = record s { loop = end_functors s.loop }
act quits_here s = record s { loop = quit true s.loop }
act (queues_here cb) s = record s { loop = queue_in_loop true cb s.loop }
act (queues_elsewhere cb) s = record { loop = push_functor cb s.loop; owed = s.owed + 1 }
act quits_elsewhere s = record { loop = set_quit s.loop; owed = s.owed + 1 }
act wakes s = record { loop = wakeup s.loop; owed = s.owed - 1 }

-- When a step can happen. The loop's thread queues and quits only from a callback or a functor.
abbrev pub is_busy : EventLoop → Bool
is_busy l = l.event_handling || l.calling_pending_functors

abbrev pub May : Action → System → Type 0
May begins_loop s = (s.loop.looping ≡ false) × (is_busy s.loop ≡ false)
May polls s = (s.loop.looping ≡ true) × (is_busy s.loop ≡ false)
May reads_wakeup s = s.loop.event_handling ≡ true
May begins_functors s = s.loop.event_handling ≡ true
May runs s = (s.loop.calling_pending_functors ≡ true) × (0 < length s.loop.functors)
May ends_functors s = (s.loop.calling_pending_functors ≡ true) × (s.loop.functors ≡ [])
May quits_here s = is_busy s.loop ≡ true
May (queues_here cb) s = is_busy s.loop ≡ true
May (queues_elsewhere cb) s = Unit {0}
May quits_elsewhere s = Unit {0}
May wakes s = 0 < s.owed

abbrev pub queued_by : Action → List ℕ
queued_by (queues_here cb) = cb ∷ []
queued_by (queues_elsewhere cb) = cb ∷ []
queued_by _ = []

abbrev pub ran_by : Action → System → List ℕ
ran_by runs s = take 1 s.loop.functors
ran_by _ s = []

-- What waits to run, first what `doPendingFunctors` has taken.
abbrev pub waiting : System → List ℕ
waiting s = s.loop.functors ++ s.loop.pending_functors

-- Only `doPendingFunctors` has functors, and it does not handle events. Outside of the handling of
-- events a pending functor has a wake-up, there or owed; so has `quit_` while the loop polls.
pub record IsValid (s : System) : Type 0 where
  pub idle : s.loop.calling_pending_functors ≡ false → s.loop.functors ≡ []
  pub apart : s.loop.event_handling ≡ true → s.loop.calling_pending_functors ≡ false
  pub awake :
      s.loop.event_handling ≡ false
      → 0 < length s.loop.pending_functors
      → 0 < s.loop.wakeups + s.owed
  pub leaves :
      is_busy s.loop ≡ false
      → s.loop.looping ≡ true
      → s.loop.quit_set ≡ true
      → 0 < s.loop.wakeups + s.owed

act-IsValid : (a : Action) {s : System} → IsValid s → May a s → IsValid (act a s)
unfolding handle_read begin_events begin_functors next_functor end_functors quit queue_in_loop
act-IsValid begins_loop {s} v may = ground (arith, v, may)
act-IsValid polls {s} v may = ground (arith, v, may)
act-IsValid reads_wakeup {s} v may = ground (arith, v, may)
act-IsValid begins_functors {s} v may = ground (arith, v, may)
act-IsValid runs {s} v may = ground (arith, v, may)
act-IsValid ends_functors {s} v may = ground (arith, v, may)
act-IsValid quits_here {s} v may = ground (arith, v, may)
act-IsValid (queues_here cb) {s} v may = ground (arith, v, may)
act-IsValid (queues_elsewhere cb) {s} v may = ground (arith, v, may)
act-IsValid quits_elsewhere {s} v may = ground (arith, v, may)
act-IsValid wakes {s} v may = ground (arith, v, may)

-- A step keeps the order of the functors.
abbrev Keeps : Action → System → Type 0
Keeps a s = waiting s ++ queued_by a ≡ ran_by a s ++ waiting (act a s)

pushes-Keeps :
    (cb : ℕ) (s : System)
    → waiting s ++ cb ∷ [] ≡ s.loop.functors ++ (s.loop.pending_functors ++ cb ∷ [])
pushes-Keeps cb s = append_assoc s.loop.functors s.loop.pending_functors (cb ∷ [])

act-Keeps : (a : Action) {s : System} → IsValid s → May a s → Keeps a s
unfolding handle_read begin_events begin_functors next_functor end_functors quit queue_in_loop
act-Keeps begins_loop {s} v may = append-nil (waiting s)
act-Keeps polls {s} v may = append-nil (waiting s)
act-Keeps reads_wakeup {s} v may = append-nil (waiting s)
act-Keeps begins_functors {s} v may =
    rw (v.idle (v.apart may))
      (append-nil s.loop.pending_functors ∙ sym (append-nil s.loop.pending_functors))
act-Keeps runs {s} v may = append-nil (waiting s) ∙ by_functors s.loop.functors
  where
    by_functors :
        (fs : List ℕ)
        → fs ++ s.loop.pending_functors ≡ take 1 fs ++ (drop 1 fs ++ s.loop.pending_functors)
    by_functors [] = refl
    by_functors (f ∷ fs) = refl
act-Keeps ends_functors {s} v may = append-nil (waiting s)
act-Keeps quits_here {s} v may = append-nil (waiting s)
act-Keeps (queues_here cb) {s} v may = elim (Bool-cases s.loop.calling_pending_functors) [
  | inl e ↦ rw e (pushes-Keeps cb s)
  | inr e ↦ rw e (pushes-Keeps cb s)
]
act-Keeps (queues_elsewhere cb) {s} v may = pushes-Keeps cb s
act-Keeps quits_elsewhere {s} v may = append-nil (waiting s)
act-Keeps wakes {s} v may = append-nil (waiting s)

-- A sequence of steps, with what it queued and what it ran.
pub data Run (s : System) : System → List ℕ → List ℕ → Type 0 where
  here : Run s s [] []
  next :
      {t : System} {queued ran : List ℕ}
      → Run s t queued ran
      → (a : Action) → May a t
      → Run s (act a t) (queued ++ queued_by a) (ran ++ ran_by a t)

-- Along any interleaving from a well-formed loop, whose own thread queues and quits only from its
-- callbacks and functors, the functors run in the order in which they were
-- queued, each once: those that ran, with those that wait, are those that waited at the start with
-- those that were queued behind them.
pub Run-order :
    {s t : System} {queued ran : List ℕ}
    → IsValid s
    → Run s t queued ran
    → IsValid t × (waiting s ++ queued ≡ ran ++ waiting t)
Run-order {s} v here = (v, append-nil (waiting s))
Run-order {s} v (next {t = t} {queued = qs} {ran = rs} r a may) =
    let (tv, before) = Run-order v r in
    (
      act-IsValid a tv may,
      sym (append_assoc (waiting s) qs (queued_by a))
          ∙ ap (λ (ws : List ℕ). ws ++ queued_by a) before
          ∙ append_assoc rs (waiting t) (queued_by a)
          ∙ ap (◌++◌ rs) (act-Keeps a tv may)
          ∙ sym (append_assoc rs (ran_by a t) (waiting (act a t))),
    )

-- Along any interleaving from a well-formed loop, whose own thread queues and quits only from its
-- callbacks and functors, whenever the loop polls while a functor is pending
-- or `quit_` is set, the event descriptor is readable or another thread is about to write to it: no
-- wake-up is lost.
pub Run-wakes :
    {s t : System} {queued ran : List ℕ}
    → IsValid s
    → Run s t queued ran
    → t.loop.looping ≡ true
    → is_busy t.loop ≡ false
    → (0 < length t.loop.pending_functors) ⊎ (t.loop.quit_set ≡ true)
    → 0 < t.loop.wakeups + t.owed
Run-wakes {s} {t} v r on idle (inl waits) =
    let w = (Run-order v r).0 in w.awake (ground (arith, idle)) waits
Run-wakes {s} {t} v r on idle (inr quits) = let w = (Run-order v r).0 in w.leaves idle on quits
