-- ===== src/Channel/Masks.antt =====
-- `events_` as two flags: whether the channel waits to read and whether it waits to write.
use ouge_net_lib.Common.{ℕ, ◌+◌, ◌≡◌, refl, Bool, true, false, ◌&&◌, not, ◌==◌, if◌then◌else◌}
use ouge_net_lib.Channel.{
  Channel, Change, enable_reading, disable_reading, enable_writing, disable_writing, disable_all,
  change_events, change, has, none_event, is_none_event, is_writing, is_reading, read_event,
  write_event,
}

-- The value of `events_` for the two flags.
abbrev pub mask : Bool → Bool → ℕ
mask reading writing = (if reading then read_event else 0) + (if writing then write_event else 0)

-- What each operation does to the flags.
abbrev pub reads_after : Change → Bool → Bool
reads_after enable_reading r = true
reads_after disable_reading r = false
reads_after disable_all r = false
reads_after _ r = r

abbrev pub writes_after : Change → Bool → Bool
writes_after enable_writing w = true
writes_after disable_writing w = false
writes_after disable_all w = false
writes_after _ w = w

pub change_events-mask :
    (k : Change) (r w : Bool)
    → change_events k (mask r w) ≡ mask (reads_after k r) (writes_after k w)
unfolding change_events
change_events-mask enable_reading true true = refl
change_events-mask enable_reading true false = refl
change_events-mask enable_reading false true = refl
change_events-mask enable_reading false false = refl
change_events-mask disable_reading true true = refl
change_events-mask disable_reading true false = refl
change_events-mask disable_reading false true = refl
change_events-mask disable_reading false false = refl
change_events-mask enable_writing true true = refl
change_events-mask enable_writing true false = refl
change_events-mask enable_writing false true = refl
change_events-mask enable_writing false false = refl
change_events-mask disable_writing true true = refl
change_events-mask disable_writing true false = refl
change_events-mask disable_writing false true = refl
change_events-mask disable_writing false false = refl
change_events-mask disable_all r w = refl

-- The channel's events are those of two flags.
pub record Waits (c : Channel) (reading writing : Bool) : Type 0 where
  pub events_eq : c.events ≡ mask reading writing

pub is_reading-Waits : {c : Channel} {r w : Bool} → Waits c r w → is_reading c ≡ r
unfolding is_reading
is_reading-Waits {c} {r} {w} h = rw h.events_eq (table r w)
  where
    table : (r w : Bool) → has (mask r w) read_event ≡ r
    table true true = refl
    table true false = refl
    table false true = refl
    table false false = refl

pub is_writing-Waits : {c : Channel} {r w : Bool} → Waits c r w → is_writing c ≡ w
unfolding is_writing
is_writing-Waits {c} {r} {w} h = rw h.events_eq (table r w)
  where
    table : (r w : Bool) → has (mask r w) write_event ≡ w
    table true true = refl
    table true false = refl
    table false true = refl
    table false false = refl

pub is_none_event-Waits :
    {c : Channel} {r w : Bool} → Waits c r w → is_none_event c ≡ (not r && not w)
unfolding is_none_event
is_none_event-Waits {c} {r} {w} h = rw h.events_eq (table r w)
  where
    table : (r w : Bool) → (mask r w == none_event) ≡ (not r && not w)
    table true true = refl
    table true false = refl
    table false true = refl
    table false false = refl

-- On a channel whose events are those of two flags each operation sets or clears its own flag and
-- leaves the other; `isReading`, `isWriting` and `isNoneEvent` read the flags.
pub change-Waits :
    (k : Change) {c : Channel} {r w : Bool}
    → Waits c r w
    → Waits (change k c) (reads_after k r) (writes_after k w)
      × (is_reading (change k c) ≡ reads_after k r)
      × (is_writing (change k c) ≡ writes_after k w)
      × (is_none_event (change k c) ≡ (not (reads_after k r) && not (writes_after k w)))
unfolding change
change-Waits k {c} {r} {w} h =
    let after : Waits (change k c) (reads_after k r) (writes_after k w) = record {
      events_eq = rw h.events_eq (change_events-mask k r w);
    } in
    (after, is_reading-Waits after, is_writing-Waits after, is_none_event-Waits after)
