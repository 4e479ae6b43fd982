-- ===== src/Poller/Examples.antt =====
-- The theorems on the poller at a
-- loop with one connection on descriptor 5 and a second channel on descriptor 6.
use ouge_net_lib.Common.{ℕ, ◌≡◌, refl, true, false, none, some, [], ◌∷◌, arith, ok}
use ouge_net_lib.Channel.{Channel, new, added, deleted, enable_writing, is_none_event}
use ouge_net_lib.Poller.{Poller, update_at, change_channel, remove}
use ouge_net_lib.Poller.Kernel.{list_kernel}
use ouge_net_lib.Poller.Valid.{IsValid}
use ouge_net_lib.Poller.Valid.Update.{change_channel-IsValid}
use ouge_net_lib.Poller.Valid.Remove.{remove-IsValid}
use ouge_net_lib.Poller.Wait.{EpollEvent, ready, poll, reported, poll-ready}

-- The channel at address 100 reads from descriptor 5; the one at 200 is new; and every other
-- address holds a new channel, too.
abbrev reading : Channel
reading = record {
  fd = 5;
  events = 3;
  revents = 0;
  index = added;
  log_hup = true;
  tied = true;
  event_handling = false;
  added_to_loop = true;
}

abbrev fresh_channel : Channel
fresh_channel = record {
  fd = 6;
  events = 0;
  revents = 0;
  index = new;
  log_hup = true;
  tied = false;
  event_handling = false;
  added_to_loop = false;
}

abbrev one : Poller list_kernel
one = record {
  channels = update_at (λ fd. none) 5 (some 100);
  store = update_at (λ c. fresh_channel) 100 reading;
  kernel = update_at (λ fd. none) 5 (some (3, 100));
  complaints = 0;
}

one-IsValid : IsValid one
one-IsValid = record {
  mapped = λ fd c h. ground (arith, h);
  indexed = λ c h. ground (arith, h);
  watched = λ fd. ground arith;
  quiet = refl;
}

change_channel-IsValid_example :
    (q : Poller list_kernel) × (change_channel enable_writing 200 one ≡ ok q) × IsValid q
change_channel-IsValid_example = change_channel-IsValid enable_writing 200 one-IsValid (λ i. refl)

-- The channel at 100 asks for nothing any more, but is still known to the poller.
abbrev idle : Poller list_kernel
idle = record {
  channels = update_at (λ fd. none) 5 (some 100);
  store = update_at (λ c. fresh_channel) 100 (record reading { events = 0; index = deleted });
  kernel = λ fd. none;
  complaints = 0;
}

idle-IsValid : IsValid idle
idle-IsValid = record {
  mapped = λ fd c h. ground (arith, h);
  indexed = λ c h. ground (arith, h);
  watched = λ fd. ground arith;
  quiet = refl;
}

remove-IsValid_example :
    (q : Poller list_kernel) × (remove 100 idle ≡ ok q)
    × IsValid q
    × (q.channels 5 ≡ none)
    × ((q.store 100).index ≡ new)
    × (list_kernel.interest q.kernel 5 ≡ none)
remove-IsValid_example = remove-IsValid 100 idle-IsValid refl (unfold is_none_event in refl)

abbrev readable : EpollEvent
readable = record { events = 1; ptr = 100 }

poll-ready_example :
    (q : Poller list_kernel) × (poll (ready (readable ∷ [])) 1 one ≡ ok (100 ∷ [], q, 2))
    × IsValid q
    × ((c : ℕ) → (q.store c).revents ≡ reported c (readable ∷ []) (one.store c).revents)
poll-ready_example =
    poll-ready (readable ∷ []) 1 one-IsValid ((5, 3, refl), tt) (omega arith) (omega arith)
