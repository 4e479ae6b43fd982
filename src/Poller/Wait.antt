-- ===== src/Poller/Wait.antt =====
-- `EPollPoller::poll` and `fillActiveChannels`: from what `epoll_wait` reports to the channels that
-- the loop will handle.
use ouge_net_lib.Common.{
  ℕ, ◌*◌, ◌≤◌, ◌<◌, ◌≡◌, refl, ap, ◌∙◌, Option, none, some, List, [], ◌∷◌, arith, All, length, leb,
  le→leb, ◌==◌, if◌then◌else◌, Result, ok, ◌>>=◌, ◌>>◌, assert, not, map,
}
use ouge_net_lib.Poller.{Epoll, Poller, update_at, is_end, points_to, fd_of}
use ouge_net_lib.Poller.Valid.{IsValid, watch}

-- One `epoll_event`: the events, and the channel that `data.ptr` holds.
pub record EpollEvent : Type 0 where
  pub events : ℕ
  pub ptr : ℕ

-- What `epoll_wait` returns: the events that it filled in, none of them on a time-out, or `errno`.
pub data Waited : Type 0 where
  ready : List EpollEvent → Waited
  failed : ℕ → Waited

abbrev pub init_event_list_size : ℕ
init_event_list_size = 16

-- The last events reported for a channel, or those that it had.
abbrev pub reported : ℕ → List EpollEvent → ℕ → ℕ
reported c [] old = old
reported c (ev ∷ evs) old = reported c evs (if ev.ptr == c then ev.events else old)

module _ {e : Epoll} where
  unfoldable pub set_revents : ℕ → ℕ → Poller e → Poller e
  set_revents c ev p = record p {
    store = update_at p.store c (record (p.store c) { revents = ev });
  }

  unfoldable pub fill_active_channels : List EpollEvent → Poller e → Result (List ℕ × Poller e)
  unfolding set_revents
  fill_active_channels [] p = ok ([], p)
  fill_active_channels (ev ∷ evs) p = do
    assert (not (is_end (p.channels (fd_of p ev.ptr))))
    assert (points_to (p.channels (fd_of p ev.ptr)) ev.ptr)
    (active, q) ← fill_active_channels evs (set_revents ev.ptr ev.events p)
    ok (ev.ptr ∷ active, q)

  -- The active channels, the poller, and the size of `events_` for the next call.
  unfoldable pub poll : Waited → ℕ → Poller e → Result (List ℕ × Poller e × ℕ)
  unfolding fill_active_channels
  poll (failed errno) size p = ok ([], p, size)
  poll (ready []) size p = ok ([], p, size)
  poll (ready (ev ∷ evs)) size p = do
    assert (leb (length (ev ∷ evs)) size)
    (active, q) ← fill_active_channels (ev ∷ evs) p
    ok (active, q, if length (ev ∷ evs) == size then size * 2 else size)

  -- What epoll_wait(2) promises: each event is of a descriptor on the interest list, with the
  -- pointer that it was registered with.
  abbrev pub Registered : Poller e → EpollEvent → Type 0
  Registered p ev = (fd ev₀ : ℕ) × (e.interest p.kernel fd ≡ some (ev₀, ev.ptr))

  set_revents-IsValid : (c ev : ℕ) {p : Poller e} → IsValid p → IsValid (set_revents c ev p)
  unfolding set_revents
  set_revents-IsValid c ev {p} v = record {
    mapped = λ fd d h. ground (arith, v.mapped fd d, h);
    indexed = λ d h. ground (arith, v.indexed d, h);
    watched = λ fd. v.watched fd ∙ watch_same (p.channels fd);
    quiet = v.quiet;
  }
    where
      watch_same :
          (o : Option ℕ)
          → watch o p.store ≡ watch o (update_at p.store c (record (p.store c) { revents = ev }))
      watch_same none = refl
      watch_same (some d) = ground arith

  -- A registered pointer is that of a channel that the map holds.
  Registered-mapped :
      {p : Poller e} (ev : EpollEvent)
      → IsValid p
      → Registered p ev
      → p.channels (fd_of p ev.ptr) ≡ some ev.ptr
  Registered-mapped {p} ev v (fd, ev₀, r) = from_map (p.channels fd) refl
    where
      from_map : (o : Option ℕ) → p.channels fd ≡ o → p.channels (fd_of p ev.ptr) ≡ some ev.ptr
      from_map none h = ground (arith, v.watched fd, r, h)
      from_map (some d) h = ground (arith, v.watched fd, r, h, v.mapped fd d)

  -- What `fillActiveChannels` leaves: the active channels in the kernel's order, each channel with
  -- the events that were reported, and all else as it was.
  abbrev Filled : List EpollEvent → Poller e → Type 0
  Filled evs p =
      (q : Poller e) × (fill_active_channels evs p ≡ ok (map (λ (ev : EpollEvent). ev.ptr) evs, q))
      × IsValid q
      × ((c : ℕ) → (q.store c).revents ≡ reported c evs (p.store c).revents)

  fill_active_channels-Filled :
      (evs : List EpollEvent) {p : Poller e} → IsValid p → All (Registered p) evs → Filled evs p
  unfolding fill_active_channels
  fill_active_channels-Filled [] {p} v h = (p, refl, v, λ c. refl)
  fill_active_channels-Filled (ev ∷ evs) {p} v h =
      let held = Registered-mapped ev v h.0 in
      let (q, done, w, seen) =
        fill_active_channels-Filled evs (set_revents-IsValid ev.ptr ev.events v) h.1 in
      (q, ground (arith, held, done), w, λ c. seen c ∙ ap (reported c evs) (ground arith))

  -- A poll of a well-formed poller that returns events of the interest list, no more than the event
  -- list holds, fails no `assert`: it hands over the channels in the kernel's order, each with the
  -- events that were reported for it, keeps the poller well-formed, and doubles the event list exactly
  -- where it was full.
  pub poll-ready :
      (evs : List EpollEvent) (size : ℕ) {p : Poller e}
      → IsValid p
      → All (Registered p) evs
      → 0 < size
      → length evs ≤ size
      → (q : Poller e) × (poll (ready evs) size p
          ≡ ok (
            map (λ (ev : EpollEvent). ev.ptr) evs,
            q,
            if length evs == size then size * 2 else size,
          ))
        × IsValid q
        × ((c : ℕ) → (q.store c).revents ≡ reported c evs (p.store c).revents)
  unfolding poll
  poll-ready [] size {p} v h some_room room = (p, ground arith, v, λ c. refl)
  poll-ready (ev ∷ evs) size {p} v h some_room room =
      let (q, done, w, seen) = fill_active_channels-Filled (ev ∷ evs) v h in
      (q, rw (le→leb (length (ev ∷ evs)) size room) (rw done), w, seen)
