-- ===== src/Channel/Examples.antt =====
-- The callbacks of a channel that waits to read.
use ouge_net_lib.Common.{ℕ, ◌≡◌, refl, Bool, true, false, none, some, List, [], ◌∷◌, ◌++◌}
use ouge_net_lib.Channel.{events_to_string}
use ouge_net_lib.Channel.Dispatch.{Callbacks, handle_event, handle_event_lem}

-- Callbacks that write down their names.
abbrev tracing : Callbacks (List ℕ)
tracing = record {
  read_callback = some (λ time s. s ++ 1 ∷ time ∷ []);
  write_callback = some (λ s. s ++ 2 ∷ []);
  close_callback = some (λ s. s ++ 3 ∷ []);
  error_callback = none;
}

abbrev mark_handling : Bool → List ℕ → List ℕ
mark_handling true s = s ++ 8 ∷ []
mark_handling false s = s ++ 9 ∷ []

-- POLLIN, POLLOUT and POLLHUP: what is left to read comes first, so that there is no close.
handle_event_lem_example :
    handle_event mark_handling tracing true true 0x15 50 [] ≡ 8 ∷ 1 ∷ 50 ∷ 2 ∷ 9 ∷ []
handle_event_lem_example = handle_event_lem mark_handling tracing true true 0x15 50 []

-- POLLHUP alone closes.
closes : handle_event mark_handling tracing false true 0x10 50 [] ≡ 8 ∷ 3 ∷ 9 ∷ []
unfolding handle_event
closes = refl

-- "7: IN OUT "
prints : events_to_string 7 5 ≡ 55 ∷ 58 ∷ 32 ∷ 73 ∷ 78 ∷ 32 ∷ 79 ∷ 85 ∷ 84 ∷ 32 ∷ []
unfolding events_to_string
prints = refl
