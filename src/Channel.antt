-- ===== src/Channel.antt =====
-- net/Channel.h and net/Channel.cc: the events that a descriptor waits for, as bits of an `int`, and
-- the callbacks that `handleEvent` runs. `update` and `remove` go to the poller: see `Poller`.
pub mod Masks
pub mod Dispatch
pub mod Names
mod Examples
use Prim.Native.Nat.{bit_and, bit_or}
use ouge_net_lib.Common.{
  ℕ, ◌-◌, ◌^◌, Bool, true, false, not, ◌==◌, if◌then◌else◌, List, [], ◌∷◌, ◌++◌,
}
use ouge_net_lib.Common.Decimal.{int_digits}

-- <poll.h>
abbrev pub poll_in : ℕ
poll_in = 0x1

abbrev pub poll_pri : ℕ
poll_pri = 0x2

abbrev pub poll_out : ℕ
poll_out = 0x4

abbrev pub poll_err : ℕ
poll_err = 0x8

abbrev pub poll_hup : ℕ
poll_hup = 0x10

abbrev pub poll_nval : ℕ
poll_nval = 0x20

abbrev pub poll_rdhup : ℕ
poll_rdhup = 0x2000

abbrev pub none_event : ℕ
none_event = 0

abbrev pub read_event : ℕ
read_event = bit_or poll_in poll_pri

abbrev pub write_event : ℕ
write_event = poll_out

-- `index_`, which only the poller sets: kNew (-1), kAdded (1) or kDeleted (2) of net/EPollPoller.cc.
pub data Index : Type 0 where
  new added deleted : Index

pub record Channel : Type 0 where
  pub fd : ℕ
  pub events : ℕ
  pub revents : ℕ
  pub index : Index
  pub log_hup : Bool
  pub tied : Bool
  pub event_handling : Bool
  pub added_to_loop : Bool

unfoldable pub new_channel : ℕ → Channel
new_channel fd = record {
  fd = fd;
  events = 0;
  revents = 0;
  index = new;
  log_hup = true;
  tied = false;
  event_handling = false;
  added_to_loop = false;
}

-- `~ mask` of a 32-bit `int`
abbrev complement : ℕ → ℕ
complement mask = 2 ^ 32 - 1 - mask

-- `ev & mask` as a condition
abbrev pub has : ℕ → ℕ → Bool
has ev mask = not (bit_and ev mask == 0)

unfoldable pub is_none_event : Channel → Bool
is_none_event c = c.events == none_event

unfoldable pub is_writing : Channel → Bool
is_writing c = has c.events write_event

unfoldable pub is_reading : Channel → Bool
is_reading c = has c.events read_event

-- The five operations that change `events_` and call `update ()`.
pub data Change : Type 0 where
  enable_reading disable_reading enable_writing disable_writing disable_all : Change

unfoldable pub change_events : Change → ℕ → ℕ
change_events enable_reading ev = bit_or ev read_event
change_events disable_reading ev = bit_and ev (complement read_event)
change_events enable_writing ev = bit_or ev write_event
change_events disable_writing ev = bit_and ev (complement write_event)
change_events disable_all ev = none_event

-- `events_` changed, and the mark that `update ()` leaves before it calls the loop.
unfoldable pub change : Change → Channel → Channel
unfolding change_events
change k c = record c { events = change_events k c.events; added_to_loop = true }

-- `eventsToString`; a name ends with a space.
abbrev pub event_names : List (ℕ × List ℕ)
event_names =
    (poll_in, 73 ∷ 78 ∷ 32 ∷ [])
    ∷ (poll_pri, 80 ∷ 82 ∷ 73 ∷ 32 ∷ [])
    ∷ (poll_out, 79 ∷ 85 ∷ 84 ∷ 32 ∷ [])
    ∷ (poll_hup, 72 ∷ 85 ∷ 80 ∷ 32 ∷ [])
    ∷ (poll_rdhup, 82 ∷ 68 ∷ 72 ∷ 85 ∷ 80 ∷ 32 ∷ [])
    ∷ (poll_err, 69 ∷ 82 ∷ 82 ∷ 32 ∷ [])
    ∷ (poll_nval, 78 ∷ 86 ∷ 65 ∷ 76 ∷ 32 ∷ [])
    ∷ []

abbrev pub names_of : List (ℕ × List ℕ) → ℕ → List ℕ
names_of [] ev = []
names_of (n ∷ ns) ev = (if has ev n.0 then n.1 else []) ++ names_of ns ev

unfoldable pub events_to_string : ℕ → ℕ → List ℕ
events_to_string fd ev = int_digits fd ++ 58 ∷ 32 ∷ names_of event_names ev
