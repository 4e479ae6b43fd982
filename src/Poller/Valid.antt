-- ===== src/Poller/Valid.antt =====
-- The poller's map, the channels' `index_` and the kernel's interest list agree.
pub mod Update
pub mod Remove
use ouge_net_lib.Common.{
  ℕ, ◌≡◌, ◌≢◌, inl, inr, refl, false, Bool-cases, Option, none, some, Option-cases, not, arith,
  ◌==◌, if◌then◌else◌,
}
use ouge_net_lib.Channel.{Channel, new}
use ouge_net_lib.Poller.{Epoll, Poller, update_at, is_added, is_new, fd_of, has_channel}

-- What the kernel should watch for a descriptor: the events of an added channel, with the channel
-- as `data.ptr`.
abbrev pub watch : Option ℕ → (ℕ → Channel) → Option (ℕ × ℕ)
watch none store = none
watch (some c) store = if is_added (store c).index then some ((store c).events, c) else none

-- A write to one channel does not change what is watched through another.
pub watch-update_at :
    (o : Option ℕ) (store : ℕ → Channel) (c : ℕ) (ch : Channel)
    → o ≢ some c
    → watch o (update_at store c ch) ≡ watch o store
watch-update_at none store c ch h = refl
watch-update_at (some d) store c ch h = elim (Bool-cases (c == d)) [
  | inl same ↦ absurd (h (ground arith))
  | inr other ↦ rw other
]

module _ {e : Epoll} where
  pub record IsValid (p : Poller e) : Type 0 where
    pub mapped :
        (fd c : ℕ)
        → p.channels fd ≡ some c
        → ((p.store c).fd ≡ fd) × (is_new (p.store c).index ≡ false)
    pub indexed : (c : ℕ) → is_new (p.store c).index ≡ false → p.channels (p.store c).fd ≡ some c
    pub watched : (fd : ℕ) → e.interest p.kernel fd ≡ watch (p.channels fd) p.store
    pub quiet : p.complaints ≡ 0

  -- A channel may be updated where it is known to the poller, or its descriptor is free.
  abbrev pub MayUpdate : ℕ → Poller e → Type 0
  MayUpdate c p = (p.store c).index ≡ new → p.channels (fd_of p c) ≡ none

  -- In a well-formed poller `hasChannel` says whether the channel is not new.
  pub has_channel-IsValid :
      (c : ℕ) {p : Poller e} → IsValid p → has_channel c p ≡ not (is_new (p.store c).index)
  unfolding has_channel
  has_channel-IsValid c {p} v =
      ground (arith, v.indexed c, v.mapped (fd_of p c) c, Option-cases (p.channels (fd_of p c)))
