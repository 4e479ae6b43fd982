-- ===== src/EventLoop.antt =====
-- net/EventLoop.h and net/EventLoop.cc: the pending functors, the wake-ups and the phases of `loop`.
-- A functor is a number; `functors` is the local vector of `doPendingFunctors`, and `wakeups` is
-- the counter of the event descriptor, which ends a poll where it is not 0.
pub mod Wakeups
pub mod Channels
pub mod Turns
pub mod Timers
pub mod Owners
mod Examples
use ouge_net_lib.Common.{
  ℕ, zero, suc, ◌+◌, Bool, true, false, ◌||◌, not, List, [], ◌∷◌, ◌++◌, if◌then◌else◌, Result, ok,
  ◌>>◌, assert, drop,
}

pub record EventLoop : Type 0 where
  pub looping : Bool
  pub quit_set : Bool
  pub event_handling : Bool
  pub calling_pending_functors : Bool
  pub pending_functors : List ℕ
  pub functors : List ℕ
  pub wakeups : ℕ

unfoldable pub new_loop : EventLoop
new_loop = record {
  looping = false;
  quit_set = false;
  event_handling = false;
  calling_pending_functors = false;
  pending_functors = [];
  functors = [];
  wakeups = 0;
}

unfoldable pub wakeup : EventLoop → EventLoop
wakeup l = record l { wakeups = l.wakeups + 1 }

-- The read of the event descriptor takes all of its counter.
unfoldable pub handle_read : EventLoop → EventLoop
handle_read l = record l { wakeups = 0 }

-- `queueInLoop` under its lock
unfoldable pub push_functor : ℕ → EventLoop → EventLoop
push_functor cb l = record l { pending_functors = l.pending_functors ++ cb ∷ [] }

unfoldable pub queue_in_loop : Bool → ℕ → EventLoop → EventLoop
unfolding push_functor wakeup
queue_in_loop in_loop_thread cb l =
    let pushed = push_functor cb l in
    if not in_loop_thread || l.calling_pending_functors then wakeup pushed else pushed

-- The functors that the call runs at once, and the loop.
unfoldable pub run_in_loop : Bool → ℕ → EventLoop → List ℕ × EventLoop
unfolding queue_in_loop
run_in_loop in_loop_thread cb l =
    if in_loop_thread then (cb ∷ [], l) else ([], queue_in_loop in_loop_thread cb l)

unfoldable pub set_quit : EventLoop → EventLoop
set_quit l = record l { quit_set = true }

unfoldable pub quit : Bool → EventLoop → EventLoop
unfolding set_quit wakeup
quit in_loop_thread l = if in_loop_thread then set_quit l else wakeup (set_quit l)

abbrev pub start_looping : EventLoop → EventLoop
start_looping l = record l { looping = true; quit_set = false }

-- `loop` up to its first poll.
unfoldable pub begin_loop : EventLoop → Result EventLoop
begin_loop l = do assert (not l.looping); ok (start_looping l)

-- The poll returns, and the active channels are handled.
unfoldable pub begin_events : EventLoop → EventLoop
begin_events l = record l { event_handling = true }

-- The events are handled, and `doPendingFunctors` swaps the vectors.
unfoldable pub begin_functors : EventLoop → EventLoop
begin_functors l = record l {
  event_handling = false;
  calling_pending_functors = true;
  functors = l.pending_functors;
  pending_functors = [];
}

-- The next functor begins to run.
unfoldable pub next_functor : EventLoop → EventLoop
next_functor l = record l { functors = drop 1 l.functors }

-- `doPendingFunctors` ends, and `while (!quit_)` looks at the flag.
unfoldable pub end_functors : EventLoop → EventLoop
end_functors l = record l { calling_pending_functors = false; looping = not l.quit_set }
