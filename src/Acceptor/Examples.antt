-- ===== src/Acceptor/Examples.antt =====
-- Runs of net/Acceptor.cc: a connection, and then one for which the process has no descriptor left.
use ouge_net_lib.Common.{◌+◌, ◌≡◌, refl, true, false, none, some, List, [], ◌∷◌, ok}
use ouge_net_lib.Acceptor.{
  Acceptor, Effect, new_connection, close_fd, new_acceptor, listen, handle_read, destroy,
  give_up_idle,
}
use ouge_net_lib.Acceptor.Descriptors.{
  Call, count, all_opened, released, handle_reads, new_acceptor-destroy,
}
use ouge_net_lib.Channel.{new_channel}
use ouge_net_lib.Sockets.{accept, emfile}

abbrev takes_one : Call
takes_one = record {
  callback_set = true;
  connfd = some 7;
  errno = 0;
  left = 0;
  accepted = none;
  reopened = none;
}

abbrev runs_out : Call
runs_out = record {
  callback_set = true;
  connfd = none;
  errno = emfile;
  left = 0;
  accepted = some 4;
  reopened = some 4;
}

new_acceptor-destroy_example :
    (a : Acceptor) × (es fs : List Effect) × (new_acceptor 3 (some 4) false ≡ ok (a, es))
    × (destroy (handle_reads (takes_one ∷ runs_out ∷ []) (listen a).0).0 ≡ ok fs)
    × (count 4 (3 ∷ 4 ∷ all_opened (takes_one ∷ runs_out ∷ []))
        ≡ count 4 (released (handle_reads (takes_one ∷ runs_out ∷ []) (listen a).0).1)
          + count 4 (released fs))
new_acceptor-destroy_example = new_acceptor-destroy 4 3 4 false (takes_one ∷ runs_out ∷ [])

abbrev waiting : Acceptor
waiting = record { accept_channel = new_channel 3; listenning = true; idle_fd = some 4 }

two_calls :
    (handle_reads (takes_one ∷ runs_out ∷ []) waiting).1
    ≡ new_connection 7 ∷ close_fd 4 ∷ close_fd 4 ∷ []
unfolding handle_read accept give_up_idle
two_calls = refl
