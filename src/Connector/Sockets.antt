-- ===== src/Connector/Sockets.antt =====
-- Every socket that the connector opens is closed or handed over once, and the channel that watches
-- one is reset only when it watches nothing.
use ouge_net_lib.Common.{
  ℕ, suc, ◌+◌, ◌≤◌, ◌≡◌, Bool, false, Option, none, some, List, [], ◌∷◌, ◌++◌, append-nil, arith,
  if◌then◌else◌, Ensures,
}
use ouge_net_lib.Channel.{
  Channel, new_channel, change, change_events, is_none_event, none_event, write_event,
}
use ouge_net_lib.Connector.{
  State, connecting, is_connecting, Connector, Effect, close_socket, hand_over, queue_reset_channel,
  Done, init_retry_delay_ms, max_retry_delay_ms, start_in_loop, start, stop, restart, reset_channel,
  stop_in_loop, handle_write, handle_error,
}

-- The sockets that left the connector, closed or handed over.
abbrev pub released : List Effect → List ℕ
released [] = []
released (close_socket fd ∷ es) = fd ∷ released es
released (hand_over fd ∷ es) = fd ∷ released es
released (e ∷ es) = released es

-- How often `resetChannel` was queued.
abbrev pub resets : List Effect → ℕ
resets [] = 0
resets (queue_reset_channel ∷ es) = suc (resets es)
resets (e ∷ es) = resets es

-- The socket of a connection attempt that is under way.
abbrev pub held_by : State → Option Channel → List ℕ
held_by connecting (some ch) = ch.fd ∷ []
held_by _ _ = []

abbrev pub held : Connector → List ℕ
held c = held_by c.state c.channel

-- The channel waits to write during an attempt, and for nothing behind it, while one `resetChannel`
-- is queued.
abbrev pub Tracked : State → Option Channel → ℕ → Type 0
Tracked connecting none queued = ◌≡◌ {A = ℕ} 0 1
Tracked connecting (some ch) queued = (ch.events ≡ write_event) × (queued ≡ 0)
Tracked _ none queued = queued ≡ 0
Tracked _ (some ch) queued = (ch.events ≡ none_event) × (queued ≡ 1)

pub record IsValid (c : Connector) (queued : ℕ) : Type 0 where
  pub tracked : Tracked c.state c.channel queued
  pub delay_least : init_retry_delay_ms ≤ c.retry_delay_ms
  pub delay_most : c.retry_delay_ms ≤ max_retry_delay_ms

-- What an operation does that opens these sockets.
pub record Conserves (c : Connector) (queued : ℕ) (opened : List ℕ) (r : Done) : Type 0 where
  pub valid : IsValid r.0 (queued + resets r.1)
  pub sockets : held c ++ opened ≡ released r.1 ++ held r.0

pub start-Conserves :
    {c : Connector} {q : ℕ} → IsValid c q → Conserves c q [] (start c) × Conserves c q [] (stop c)
unfolding start stop
start-Conserves {c} {q} v = (
  record { valid = ground (arith, v); sockets = append-nil (held c) },
  record { valid = ground (arith, v); sockets = append-nil (held c) },
)

-- An attempt from a connector that is down.
pub start_in_loop-Conserves :
    (fd errno : ℕ) {c : Connector} {q : ℕ}
    → IsValid c q
    → Ensures (start_in_loop fd errno c) (Conserves c q (if c.connect then fd ∷ [] else []))
unfolding start_in_loop change change_events new_channel
start_in_loop-Conserves fd errno {c} {q} v = ground (arith, v)

pub handle_error-Conserves :
    {c : Connector} {q : ℕ} → IsValid c q → Ensures (handle_error c) (Conserves c q [])
unfolding handle_error change change_events is_none_event
handle_error-Conserves {c} {q} v = ground (arith, v)

pub stop_in_loop-Conserves :
    {c : Connector} {q : ℕ} → IsValid c q → Ensures (stop_in_loop c) (Conserves c q [])
unfolding stop_in_loop change change_events is_none_event
stop_in_loop-Conserves {c} {q} v = ground (arith, v)

pub handle_write-Conserves :
    (error : ℕ) (self_connect : Bool) {c : Connector} {q : ℕ}
    → IsValid c q
    → Ensures (handle_write error self_connect c) (Conserves c q [])
unfolding handle_write change change_events is_none_event
handle_write-Conserves error self_connect {c} {q} v = ground (arith, v)

pub restart-Conserves :
    (fd errno : ℕ) {c : Connector} {q : ℕ}
    → IsValid c q
    → is_connecting c.state ≡ false
    → Ensures (restart fd errno c) (Conserves c q (fd ∷ []))
unfolding restart start_in_loop change change_events new_channel
restart-Conserves fd errno {c} {q} v idle = ground (arith, v)

pub reset_channel-IsValid :
    {c : Connector} {q : ℕ}
    → IsValid c (suc q)
    → IsValid (reset_channel c) q × (held (reset_channel c) ≡ held c)
unfolding reset_channel
reset_channel-IsValid {c} {q} v = ground (arith, v)
