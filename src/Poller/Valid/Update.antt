-- ===== src/Poller/Valid/Update.antt =====
-- A change of a channel's events reaches the kernel.
use ouge_net_lib.Common.{
  ℕ, ◌≡◌, ◌≢◌, inl, inr, refl, sym, true, false, Bool-cases, none, some, arith, ok,
}
use native.Mathlib.Decide.{ℕ_discrete}
use ouge_net_lib.Channel.{Index, new, added, deleted, Change, change, is_none_event}
use ouge_net_lib.Poller.{
  Epoll, Poller, ctl_add, ctl_mod, ctl_del, update_at, is_added, is_new, fd_of, set_index, update,
  update_by, update_channel, change_channel,
}
use ouge_net_lib.Poller.Valid.{watch, watch-update_at, IsValid, MayUpdate}

module _ {e : Epoll} where
  -- The same, but for what the kernel knows of the descriptor of `c`, whose events have changed:
  -- it is registered where the channel is added.
  record Pending (p : Poller e) (c : ℕ) : Type 0 where
    mapped :
        (fd d : ℕ)
        → p.channels fd ≡ some d
        → ((p.store d).fd ≡ fd) × (is_new (p.store d).index ≡ false)
    indexed : (d : ℕ) → is_new (p.store d).index ≡ false → p.channels (p.store d).fd ≡ some d
    others : (fd : ℕ) → fd ≢ fd_of p c → e.interest p.kernel fd ≡ watch (p.channels fd) p.store
    registered :
        is_added (p.store c).index ≡ true
        → (old : ℕ × ℕ) × (e.interest p.kernel (fd_of p c) ≡ some old)
    unregistered : is_added (p.store c).index ≡ false → e.interest p.kernel (fd_of p c) ≡ none
    quiet : p.complaints ≡ 0

  other-channel :
      (c : ℕ) {p : Poller e} (fd : ℕ) → Pending p c → fd ≢ fd_of p c → p.channels fd ≢ some c
  other-channel c {p} fd v far h = far (sym (v.mapped fd c h).0)

  -- A new channel, on a descriptor that no channel holds.
  new-Pending :
      (c : ℕ) {p : Poller e}
      → Pending p c
      → (p.store c).index ≡ new
      → p.channels (fd_of p c) ≡ none
      → (q : Poller e) × (update_by new c p ≡ ok q) × IsValid q
  unfolding update_by
  new-Pending c {p} v i free =
      let q₀ = record p { channels = update_at p.channels (fd_of p c) (some c) } in
      let q = update ctl_add c (set_index c added q₀) in
      let law = e.add_fresh (fd_of p c) (p.store c).events c p.kernel (v.unregistered (rw i)) in
      (
        q,
        rw free,
        record {
          mapped = λ fd d h. ground (arith, v.mapped fd d, v.indexed d, i, h);
          indexed = λ d h. ground (arith, v.mapped (fd_of p c) d, v.indexed d, free, i, h);
          watched = λ fd. elim (ℕ_discrete fd (fd_of p c)) [
            | yes here ↦ ground (arith, law.1 fd, here)
            | no far ↦ ground (
              arith,
              law.1 fd,
              v.others fd far,
              watch-update_at (p.channels fd) p.store c (record (p.store c) { index = added })
                  (other-channel c fd v far),
            )
          ];
          quiet = ground (arith, law.0, v.quiet);
        },
      )

  -- A channel that was deleted is added again.
  deleted-Pending :
      (c : ℕ) {p : Poller e}
      → Pending p c
      → (p.store c).index ≡ deleted
      → (q : Poller e) × (update_by deleted c p ≡ ok q) × IsValid q
  unfolding update_by
  deleted-Pending c {p} v i =
      let held : p.channels (fd_of p c) ≡ some c = v.indexed c (rw i) in
      let law = e.add_fresh (fd_of p c) (p.store c).events c p.kernel (v.unregistered (rw i)) in
      let ch = record (p.store c) { index = added } in
      (
        update ctl_add c (set_index c added p),
        ground (arith, held),
        record {
          mapped = λ fd d h. ground (arith, v.mapped fd d, i, h);
          indexed = λ d h. ground (arith, v.indexed d, i, h, held);
          watched = λ fd. elim (ℕ_discrete fd (fd_of p c)) [
            | yes here ↦ ground (arith, law.1 fd, here, held)
            | no far ↦ ground (
              arith,
              law.1 fd,
              v.others fd far,
              watch-update_at (p.channels fd) p.store c ch (other-channel c fd v far),
            )
          ];
          quiet = ground (arith, law.0, v.quiet);
        },
      )

  -- An added channel is deleted where it waits for nothing, and else modified.
  idle-Pending :
      (c : ℕ) {p : Poller e}
      → Pending p c
      → (p.store c).index ≡ added
      → is_none_event (p.store c) ≡ true
      → (q : Poller e) × (update_by added c p ≡ ok q) × IsValid q
  unfolding update_by
  idle-Pending c {p} v i idle =
      let held : p.channels (fd_of p c) ≡ some c = v.indexed c (rw i) in
      let (old, known) = v.registered (rw i) in
      let law = e.del_known (fd_of p c) (p.store c).events c p.kernel old known in
      let ch = record (p.store c) { index = deleted } in
      (
        set_index c deleted (update ctl_del c p),
        ground (arith, held, idle),
        record {
          mapped = λ fd d h. ground (arith, v.mapped fd d, i, h);
          indexed = λ d h. ground (arith, v.indexed d, i, h, held);
          watched = λ fd. elim (ℕ_discrete fd (fd_of p c)) [
            | yes here ↦ ground (arith, law.1 fd, here, held)
            | no far ↦ ground (
              arith,
              law.1 fd,
              v.others fd far,
              watch-update_at (p.channels fd) p.store c ch (other-channel c fd v far),
            )
          ];
          quiet = ground (arith, law.0, v.quiet);
        },
      )

  busy-Pending :
      (c : ℕ) {p : Poller e}
      → Pending p c
      → (p.store c).index ≡ added
      → is_none_event (p.store c) ≡ false
      → (q : Poller e) × (update_by added c p ≡ ok q) × IsValid q
  unfolding update_by
  busy-Pending c {p} v i busy =
      let held : p.channels (fd_of p c) ≡ some c = v.indexed c (rw i) in
      let (old, known) = v.registered (rw i) in
      let law = e.mod_known (fd_of p c) (p.store c).events c p.kernel old known in
      (
        update ctl_mod c p,
        ground (arith, held, busy),
        record {
          mapped = λ fd d h. v.mapped fd d h;
          indexed = λ d h. v.indexed d h;
          watched = λ fd. elim (ℕ_discrete fd (fd_of p c)) [
            | yes here ↦ ground (arith, law.1 fd, here, held, i)
            | no far ↦ ground (arith, law.1 fd, v.others fd far)
          ];
          quiet = ground (arith, law.0, v.quiet);
        },
      )

  update_channel-Pending :
      (c : ℕ) {p : Poller e}
      → Pending p c
      → MayUpdate c p
      → (q : Poller e) × (update_channel c p ≡ ok q) × IsValid q
  unfolding update_channel
  update_channel-Pending c {p} v may = by_index (p.store c).index refl
    where
      by_index :
          (i : Index)
          → (p.store c).index ≡ i
          → (q : Poller e) × (update_by (p.store c).index c p ≡ ok q) × IsValid q
      by_index new i = rw i (new-Pending c v i (may i))
      by_index deleted i = rw i (deleted-Pending c v i)
      by_index added i = elim (Bool-cases (is_none_event (p.store c))) [
        | inl idle ↦ rw i (idle-Pending c v i idle)
        | inr busy ↦ rw i (busy-Pending c v i busy)
      ]

  -- After a change of its events only the descriptor of that channel may disagree.
  changed-Pending :
      (k : Change) (c : ℕ) {p : Poller e}
      → IsValid p
      → MayUpdate c p
      → Pending (record p { store = update_at p.store c (change k (p.store c)) }) c
  unfolding change
  changed-Pending k c {p} v may =
      let seen = v.watched (fd_of p c) in
      record {
        mapped = λ fd d h. ground (arith, v.mapped fd d, h);
        indexed = λ d h. ground (arith, v.indexed d, h);
        others = λ fd far. ground (
          arith,
          v.watched fd,
          watch-update_at (p.channels fd) p.store c (change k (p.store c))
              (λ h. far (ground (arith, v.mapped fd c h))),
        );
        registered = λ h. (((p.store c).events, c), ground (arith, seen, v.indexed c, h));
        unregistered = λ h. ground (arith, seen, v.indexed c, may, h);
        quiet = v.quiet;
      }

  -- In a well-formed poller, for a channel that it knows or whose descriptor is free,
  -- `enableReading`, `disableReading`, `enableWriting`, `disableWriting` and `disableAll` succeed, no
  -- `epoll_ctl` fails, and afterwards the kernel watches each descriptor for the events that its
  -- channel asks for.
  pub change_channel-IsValid :
      (k : Change) (c : ℕ) {p : Poller e}
      → IsValid p
      → MayUpdate c p
      → (q : Poller e) × (change_channel k c p ≡ ok q) × IsValid q
  unfolding change_channel
  change_channel-IsValid k c {p} v may =
      update_channel-Pending c (changed-Pending k c v may)
        (unfold change in λ i. ground (arith, may, i))
