-- ===== src/TcpServer/Threads.antt =====
-- A server with the event loop threads of net/EventLoopThread.cc in its pool.
use ouge_net_lib.Common.{
  ℕ, suc, ◌≡◌, refl, Bool, true, false, [], ◌∷◌, ◌++◌, append-nil, arith, if◌then◌else◌, Result, ok,
  err, null_dereference, ◌>>=◌,
}
use ouge_net_lib.EventLoopThread.{new_thread, start_loop}
use ouge_net_lib.EventLoopThread.Starts.{here, Run-start_loop}
use ouge_net_lib.EventLoopThreadPool.{start_loops, start as start_pool}
use ouge_net_lib.TcpServer.{
  TcpServer, run_in_loop, listen_acceptor, thread_init, set_thread_num, start,
}

-- What `startLoop` of a new thread gives; the loop of the thread of number `i` would be at `loop_of i`.
abbrev pub start_thread : (ℕ → ℕ) → ℕ → Result ℕ
start_thread loop_of i = start_loop (loop_of i) new_thread >>= λ r. ok r.0

start_thread_fails : (loop_of : ℕ → ℕ) (i : ℕ) → start_thread loop_of i ≡ err null_dereference
start_thread_fails loop_of i = rw ((Run-start_loop (loop_of i) here).0) refl

-- `start` of a server that is not started and does not listen: without threads it succeeds and gives
-- the loop the task to listen; with one thread or more, which
-- `setThreadNum` sets, it uses a null pointer.
pub start-set_thread_num :
    (loop_of : ℕ → ℕ) (cb_set : Bool) (n : ℕ) (s : TcpServer)
    → s.started ≡ false
    → s.thread_pool.started ≡ false
    → s.acceptor.listenning ≡ false
    → (start (start_thread loop_of) cb_set (set_thread_num 0 s)
        ≡ ok (
          record s {
            started = true;
            thread_pool = record (s.thread_pool) { started = true; num_threads = 0 };
          },
          (if cb_set then thread_init ∷ [] else []) ++ run_in_loop s.loop listen_acceptor ∷ [],
        ))
      × (start (start_thread loop_of) cb_set (set_thread_num (suc n) s) ≡ err null_dereference)
unfolding start set_thread_num start_pool start_loops
start-set_thread_num loop_of cb_set n s off idle silent = (
  ground (arith, off, idle, silent, append-nil (s.thread_pool).loops),
  ground (arith, off, idle, start_thread_fails loop_of 0),
)
