-- ===== src/EventLoopThread.antt =====
-- net/EventLoopThread.h and net/EventLoopThread.cc: a thread that runs an event loop. A loop is its
-- address. The thread's own part is in steps; `startLoop` waits until the loop is published, so it
-- takes that step with it.
pub mod Starts
use ouge_net_lib.Common.{
  ◌>>=◌, ◌>>◌, ℕ, Bool, true, false, ◌&&◌, not, Option, none, some, if◌then◌else◌, Result, ok, err,
  null_dereference, terminated, assert,
}

pub record EventLoopThread : Type 0 where
  pub loop : Option ℕ
  pub exiting : Bool
  pub thread_set : Bool  -- whether `threadPtr_` holds a thread

unfoldable pub new_thread : EventLoopThread
new_thread = record { loop = none; exiting = false; thread_set = false }

-- `loop_->`
abbrev pub loop_pointer : Option ℕ → Result ℕ
loop_pointer none = err null_dereference
loop_pointer (some loop) = ok loop

abbrev pub is_set : Option ℕ → Bool
is_set none = false
is_set (some loop) = true

-- The thread publishes its loop.
unfoldable pub publish : ℕ → EventLoopThread → EventLoopThread
publish loop t = record t { loop = some loop }

-- The thread's loop has ended.
unfoldable pub clear_loop : EventLoopThread → EventLoopThread
clear_loop t = record t { loop = none }

-- `loop` is the address of the thread's loop. `assertInLoopThread` reads a field of `*loop_`.
unfoldable pub start_loop : ℕ → EventLoopThread → Result (ℕ × EventLoopThread)
unfolding publish
start_loop loop t = do
  here ← loop_pointer t.loop
  assert (not t.thread_set)
  ok (loop, publish loop (record t { thread_set = true }))

-- The destructor, and whether it joins the thread; a `std::thread` that is destroyed before it is
-- joined ends the program.
unfoldable pub destroy : EventLoopThread → Result Bool
destroy t =
    if t.thread_set && is_set t.loop
    then ok true
    else if t.thread_set
    then err terminated
    else ok false
