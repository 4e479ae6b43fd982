-- ===== src/Poller/Valid/Remove.antt =====
-- `remove` takes a channel out of the map and out of the interest list.
use ouge_net_lib.Common.{ℕ, ◌≡◌, ◌≢◌, refl, ◌∙◌, true, false, none, some, arith, ok}
use native.Mathlib.Decide.{ℕ_discrete}
use ouge_net_lib.Channel.{Index, new, added, deleted, is_none_event}
use ouge_net_lib.Poller.{
  Epoll, Poller, ctl_del, update_at, is_new, fd_of, set_index, update, remove,
}
use ouge_net_lib.Poller.Valid.{watch, watch-update_at, IsValid}

module _ {e : Epoll} where
  -- What `remove` leaves.
  abbrev Removed : ℕ → Poller e → Type 0
  Removed c p =
      (q : Poller e) × (remove c p ≡ ok q)
      × IsValid q
      × (q.channels (fd_of p c) ≡ none)
      × ((q.store c).index ≡ new)
      × (e.interest q.kernel (fd_of p c) ≡ none)

  -- The state of `remove` before `epoll_ctl`: the channel's mark is cleared and the map forgets it.
  abbrev unmapped : ℕ → Poller e → Poller e
  unmapped c p = record p {
    channels = update_at p.channels (fd_of p c) none;
    store = update_at p.store c (record (p.store c) { added_to_loop = false });
  }

  -- The stores of the two steps, seen through another channel.
  watch-elsewhere :
      (c : ℕ) (p : Poller e) (fd : ℕ)
      → p.channels fd ≢ some c
      → watch (p.channels fd) (set_index c new (unmapped c p)).store ≡ watch (p.channels fd) p.store
  unfolding set_index
  watch-elsewhere c p fd far =
      watch-update_at (p.channels fd) (unmapped c p).store c _ far
      ∙ watch-update_at (p.channels fd) p.store c _ far

  remove_added :
      (c : ℕ) {p : Poller e}
      → IsValid p
      → (p.store c).index ≡ added
      → is_none_event (p.store c) ≡ true
      → Removed c p
  unfolding remove is_none_event
  remove_added c {p} v i idle =
      let held : p.channels (fd_of p c) ≡ some c = v.indexed c (rw i) in
      let known : e.interest p.kernel (fd_of p c) ≡ some ((p.store c).events, c) =
        ground (arith, v.watched (fd_of p c), held, i) in
      let law = e.del_known (fd_of p c) (p.store c).events c p.kernel _ known in
      (
        set_index c new (update ctl_del c (unmapped c p)),
        ground (arith, held, idle, i),
        record {
          mapped = λ fd d h. ground (arith, v.mapped fd d, v.mapped fd c, h);
          indexed = λ d h. ground (arith, v.indexed d, v.indexed c, i, h, held);
          watched = λ fd. elim (ℕ_discrete fd (fd_of p c)) [
            | yes here ↦ ground (arith, law.1 fd, here)
            | no far ↦ ground (
              arith,
              law.1 fd,
              v.watched fd,
              watch-elsewhere c p fd (λ h. far (ground (arith, v.mapped fd c h))),
            )
          ];
          quiet = ground (arith, law.0, v.quiet);
        },
        ground arith,
        ground arith,
        ground (arith, law.1 (fd_of p c)),
      )

  remove_deleted :
      (c : ℕ) {p : Poller e}
      → IsValid p
      → (p.store c).index ≡ deleted
      → is_none_event (p.store c) ≡ true
      → Removed c p
  unfolding remove is_none_event
  remove_deleted c {p} v i idle =
      let held : p.channels (fd_of p c) ≡ some c = v.indexed c (rw i) in
      let unknown : e.interest p.kernel (fd_of p c) ≡ none =
        ground (arith, v.watched (fd_of p c), held, i) in
      (
        set_index c new (unmapped c p),
        ground (arith, held, idle, i),
        record {
          mapped = λ fd d h. ground (arith, v.mapped fd d, v.mapped fd c, h);
          indexed = λ d h. ground (arith, v.indexed d, v.indexed c, i, h, held);
          watched = λ fd. elim (ℕ_discrete fd (fd_of p c)) [
            | yes here ↦ ground (arith, unknown, here)
            | no far ↦ ground (
              arith,
              v.watched fd,
              watch-elsewhere c p fd (λ h. far (ground (arith, v.mapped fd c h))),
            )
          ];
          quiet = ground (arith, v.quiet);
        },
        ground arith,
        ground arith,
        ground (arith, unknown),
      )

  -- `remove` of a channel that a well-formed poller knows and that waits for nothing succeeds and keeps
  -- the poller well-formed: the descriptor is free again, the channel is new, and the kernel watches
  -- the descriptor no more.
  pub remove-IsValid :
      (c : ℕ) {p : Poller e}
      → IsValid p
      → is_new (p.store c).index ≡ false
      → is_none_event (p.store c) ≡ true
      → (q : Poller e) × (remove c p ≡ ok q)
        × IsValid q
        × (q.channels (fd_of p c) ≡ none)
        × ((q.store c).index ≡ new)
        × (e.interest q.kernel (fd_of p c) ≡ none)
  remove-IsValid c {p} v known idle = by_index (p.store c).index refl
    where
      by_index : (i : Index) → (p.store c).index ≡ i → Removed c p
      by_index new i = absurd (ground (arith, known, i))
      by_index added i = remove_added c v i idle
      by_index deleted i = remove_deleted c v i idle
