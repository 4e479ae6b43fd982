-- ===== src/EventLoopThread/Starts.antt =====
-- No event loop thread ever starts.
use ouge_net_lib.Common.{ℕ, ◌≡◌, refl, true, false, none, arith, ok, err, null_dereference}
use ouge_net_lib.EventLoopThread.{
  EventLoopThread, new_thread, publish, clear_loop, start_loop, destroy,
}

-- A call of `startLoop`, with the address of the loop, and the steps of the thread, where it runs.
pub data Step (t : EventLoopThread) (t' : EventLoopThread) : Type 0 where
  starts : (loop loop' : ℕ) → start_loop loop t ≡ ok (loop', t') → Step t t'
  publishes : (loop : ℕ) → t.thread_set ≡ true → t' ≡ publish loop t → Step t t'
  finishes : t.thread_set ≡ true → t' ≡ clear_loop t → Step t t'

pub data Run (t : EventLoopThread) : EventLoopThread → Type 0 where
  here : Run t t
  next : {u u' : EventLoopThread} → Run t u → Step u u' → Run t u'

abbrev IsIdle : EventLoopThread → Type 0
IsIdle t = (t.loop ≡ none) × (t.thread_set ≡ false)

start_idle : (loop : ℕ) (t : EventLoopThread) → IsIdle t → start_loop loop t ≡ err null_dereference
unfolding start_loop
start_idle loop t idle = ground (arith, idle)

Step-IsIdle : (t t' : EventLoopThread) → IsIdle t → Step t t' → IsIdle t'
Step-IsIdle t t' idle (starts loop loop' e) = absurd (ground (arith, e, start_idle loop t idle))
Step-IsIdle t t' idle (publishes loop up e) = absurd (ground (arith, idle, up))
Step-IsIdle t t' idle (finishes up e) = absurd (ground (arith, idle, up))

Run-IsIdle : {t : EventLoopThread} → Run new_thread t → IsIdle t
unfolding new_thread
Run-IsIdle here = (refl, refl)
Run-IsIdle (next {u} {u'} run step) = Step-IsIdle u u' (Run-IsIdle run) step

-- Whatever happened to an event loop thread since it was made, `startLoop` uses a null pointer, before
-- it starts a thread; so the destructor never has a thread to join.
pub Run-start_loop :
    (loop : ℕ) {t : EventLoopThread}
    → Run new_thread t
    → (start_loop loop t ≡ err null_dereference) × (destroy t ≡ ok false)
unfolding destroy
Run-start_loop loop {t} run =
    let idle = Run-IsIdle run in (start_idle loop t idle, ground (arith, idle))
