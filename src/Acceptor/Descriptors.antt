-- ===== src/Acceptor/Descriptors.antt =====
-- No descriptor leaks: each one that the system gave is handed over, closed or still held, once.
use ouge_net_lib.Common.{
  ℕ, ◌+◌, ◌≡◌, refl, Bool, false, ◌&&◌, not, Option, none, some, List, [], ◌∷◌, ◌++◌, ◌==◌,
  if◌then◌else◌, arith, ok, ap,
}
use ouge_net_lib.Channel.{new_channel, change, change_events, is_none_event}
use ouge_net_lib.Sockets.{accept, emfile}
use ouge_net_lib.Acceptor.{
  Acceptor, Effect, new_connection, close_fd, Done, new_acceptor, listen, handle_read, destroy,
  give_up_idle, is_open,
}

abbrev pub count : ℕ → List ℕ → ℕ
count fd [] = 0
count fd (x ∷ xs) = (if fd == x then 1 else 0) + count fd xs

-- The descriptors that left the acceptor.
abbrev pub released : List Effect → List ℕ
released [] = []
released (new_connection fd ∷ es) = fd ∷ released es
released (close_fd fd ∷ es) = fd ∷ released es
released (e ∷ es) = released es

abbrev pub given : Option ℕ → List ℕ
given none = []
given (some fd) = fd ∷ []

-- Those that it holds.
abbrev pub held : Acceptor → List ℕ
held a = a.accept_channel.fd ∷ given a.idle_fd

-- One call of `handleRead`, with what the system calls give.
pub record Call : Type 0 where
  pub callback_set : Bool
  pub connfd : Option ℕ
  pub errno : ℕ
  pub left : ℕ
  pub accepted : Option ℕ
  pub reopened : Option ℕ

abbrev pub perform : Call → Acceptor → Done
perform c a = handle_read c.callback_set c.connfd c.errno c.left c.accepted c.reopened a

-- Whether the process ran out of descriptors.
abbrev pub is_out : Call → Bool
is_out c = not (is_open c.connfd) && (accept c.connfd c.errno c.left).errno == emfile

-- What the system calls give in one call.
abbrev pub opened : Call → List ℕ
opened c = if is_out c then given c.accepted ++ given c.reopened else given c.connfd

abbrev pub handle_reads : List Call → Acceptor → Done
handle_reads [] a = (a, [])
handle_reads (c ∷ cs) a =
    let (b, es) = perform c a in let (d, fs) = handle_reads cs b in (d, es ++ fs)

abbrev pub all_opened : List Call → List ℕ
all_opened [] = []
all_opened (c ∷ cs) = opened c ++ all_opened cs

count-append : (fd : ℕ) (xs ys : List ℕ) → count fd (xs ++ ys) ≡ count fd xs + count fd ys
count-append fd [] ys = omega arith
count-append fd (x ∷ xs) ys = omega (arith, count-append fd xs ys)

released-append : (es fs : List Effect) → released (es ++ fs) ≡ released es ++ released fs
released-append [] fs = refl
released-append (e ∷ es) fs = ground (arith, released-append es fs)

one_call :
    (fd : ℕ) (c : Call) (a : Acceptor)
    → count fd (held a) + count fd (opened c)
      ≡ count fd (released (perform c a).1) + count fd (held (perform c a).0)
unfolding handle_read accept give_up_idle
one_call fd c a = ground arith

-- Along any calls of `handleRead`, whatever the system calls return, each descriptor that they gave
-- or that the acceptor held is handed over, closed or held at the end, exactly as often as it was
-- given or held.
pub handle_read-released :
    (fd : ℕ) (cs : List Call) (a : Acceptor)
    → count fd (held a) + count fd (all_opened cs)
      ≡ count fd (released (handle_reads cs a).1) + count fd (held (handle_reads cs a).0)
handle_read-released fd [] a = omega arith
handle_read-released fd (c ∷ cs) a = omega (
  arith,
  one_call fd c a,
  handle_read-released fd cs (perform c a).0,
  count-append fd (opened c) (all_opened cs),
  count-append fd (released (perform c a).1) (released (handle_reads cs (perform c a).0).1),
  ap (count fd) (released-append (perform c a).1 (handle_reads cs (perform c a).0).1),
)

-- From the constructor through `listen` and any calls of `handleRead` to the destructor, which all
-- succeed where the first `open` gave a descriptor: each descriptor that the system gave was handed
-- over or closed, exactly as often as it was given.
pub new_acceptor-destroy :
    (fd sockfd idle : ℕ) (reuseport : Bool) (cs : List Call)
    → (a : Acceptor) × (es fs : List Effect) × (new_acceptor sockfd (some idle) reuseport
        ≡ ok (a, es))
      × (destroy (handle_reads cs (listen a).0).0 ≡ ok fs)
      × (count fd (sockfd ∷ idle ∷ all_opened cs)
          ≡ count fd (released (handle_reads cs (listen a).0).1) + count fd (released fs))
unfolding new_acceptor destroy listen change change_events new_channel is_none_event
new_acceptor-destroy fd sockfd idle reuseport cs =
    let a : Acceptor = record {
      accept_channel = new_channel sockfd;
      listenning = false;
      idle_fd = some idle;
    } in
    let d = (handle_reads cs (listen a).0).0 in
    (a, _, _, refl, refl, ground (arith, handle_read-released fd cs (listen a).0))
