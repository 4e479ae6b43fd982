-- ===== src/EventLoop/Turns.antt =====
-- The turns of the active channels: the `assert`s that they pass, and what the poller knows behind them.
use ouge_net_lib.Common.{
  ℕ, ◌≡◌, ◌⊎◌, refl, ap, ◌∙◌, Bool, true, false, inl, inr, Bool-cases, none, some, List, [], ◌∷◌,
  ◌==◌, not, All, All-map, All-both, arith, ok, subst, length, replicate, if◌then◌else◌,
}
use ouge_net_lib.Channel.{Change, change, disable_all, is_none_event, change_events}
use ouge_net_lib.Poller
use ouge_net_lib.Poller.{
  Epoll, Poller, has_channel, change_channel, remove, is_new, update_by, set_index, update,
}
use ouge_net_lib.Poller.Valid.{IsValid, has_channel-IsValid}
use ouge_net_lib.Poller.Valid.Update.{change_channel-IsValid}
use ouge_net_lib.Poller.Valid.Remove.{remove-IsValid}
use ouge_net_lib.EventLoop.Channels.{
  Events, is_active, Request, changes, removes, may_remove, remove_channel, update_channel, serve,
  serve_all, handle_channels, handle_active,
}

-- The channels differ from one another.
abbrev pub IsDistinct : List ℕ → Type 0
IsDistinct [] = Unit {0}
IsDistinct (c ∷ cs) = All (λ (d : ℕ). (c == d) ≡ false) cs × IsDistinct cs

-- The callbacks of the channel `c` change the events of channels, and then the channel may leave.
abbrev pub requests : ℕ → List (Change × ℕ) → Bool → List Request
requests c [] true = changes disable_all c ∷ removes c ∷ []
requests c [] false = []
requests c ((k, d) ∷ xs) leaves = changes k d ∷ requests c xs leaves

module _ {e : Epoll} where
  -- The poller knows these channels.
  abbrev pub AreKnown : Poller e → List ℕ → Type 0
  AreKnown p cs = All (λ (d : ℕ). has_channel d p ≡ true) cs

  -- They change channels that the poller knows: `c` itself, or channels that do not leave.
  abbrev pub MayAsk : (ℕ → Bool) → Poller e → ℕ → List (Change × ℕ) → Type 0
  MayAsk leaves p c xs =
      All (λ (x : Change × ℕ). (has_channel x.1 p ≡ true) × ((x.1 ≡ c) ⊎ (leaves x.1 ≡ false))) xs

  not_new :
      (c : ℕ) {p : Poller e} → IsValid p → has_channel c p ≡ true → is_new (p.store c).index ≡ false
  not_new c {p} v h = ground (arith, has_channel-IsValid c v, h)

  change_channel-same :
      (k : Change) (c d : ℕ) (p q : Poller e)
      → IsValid p
      → is_new (p.store c).index ≡ false
      → change_channel k c p ≡ ok q
      → has_channel d q ≡ has_channel d p
  unfolding has_channel change_channel Poller.update_channel update_by set_index update change
  change_channel-same k c d p q v known done = ground (arith, known, done)

  disabled :
      (c : ℕ) (p q : Poller e)
      → change_channel disable_all c p ≡ ok q
      → is_none_event (q.store c) ≡ true
  unfolding change_channel Poller.update_channel update_by set_index update change change_events
      is_none_event
  disabled c p q done = ground (arith, done)

  remove-same :
      (c d : ℕ) (p q : Poller e)
      → (c == d) ≡ false
      → remove c p ≡ ok q
      → has_channel d q ≡ has_channel d p
  unfolding has_channel remove Poller.remove_channel set_index update
  remove-same c d p q other done = ground (arith, other, done)

  -- A change of a channel that the poller knows.
  change_channel-known :
      (k : Change) (c : ℕ) {p : Poller e}
      → IsValid p
      → has_channel c p ≡ true
      → (q : Poller e) × (change_channel k c p ≡ ok q)
        × IsValid q
        × ((d : ℕ) → has_channel d q ≡ has_channel d p)
  change_channel-known k c {p} v h =
      let known = not_new c v h in
      let (q, done, w) = change_channel-IsValid k c v (λ i. absurd (ground (arith, known, i))) in
      (q, done, w, λ d. change_channel-same k c d p q v known done)

  -- What the turn of a known channel does.
  record Turn (c : ℕ) (leaves : Bool) (l r : Events e) : Type 0 where
    valid : IsValid r.poller
    own : has_channel c r.poller ≡ not leaves
    others : (d : ℕ) → (c == d) ≡ false → has_channel d r.poller ≡ has_channel d l.poller

  -- The channel leaves: it is the current one, so `removeChannel` takes it.
  leave-Turn :
      (c : ℕ) (l : Events e)
      → IsValid l.poller
      → l.current_active_channel ≡ some c
      → has_channel c l.poller ≡ true
      → (r : Events e) × (serve_all (requests c [] true) l ≡ ok r) × Turn c true l r
  unfolding serve_all serve update_channel remove_channel may_remove
  leave-Turn c l v at h =
      let (p, changed, w, same) = change_channel-known disable_all c v h in
      let known = not_new c w (same c ∙ h) in
      let (q, removed, x, free, fresh, gone) =
        remove-IsValid c w known (disabled c l.poller p changed) in
      (
        record l { poller = q },
        ground (arith, changed, removed, at),
        record {
          valid = x;
          own = ground (arith, has_channel-IsValid c x, fresh);
          others = λ d other. remove-same c d p q other removed ∙ same d;
        },
      )

  serve_all-Turn :
      (c : ℕ) (xs : List (Change × ℕ)) (leaves : Bool) (l : Events e)
      → IsValid l.poller
      → l.current_active_channel ≡ some c
      → has_channel c l.poller ≡ true
      → All (λ (x : Change × ℕ). has_channel x.1 l.poller ≡ true) xs
      → (r : Events e) × (serve_all (requests c xs leaves) l ≡ ok r) × Turn c leaves l r
  unfolding serve_all serve update_channel
  serve_all-Turn c [] true l v at h asked = leave-Turn c l v at h
  serve_all-Turn c [] false l v at h asked =
      (l, refl, record { valid = v; own = h; others = λ d other. refl })
  serve_all-Turn c ((k, d) ∷ xs) leaves l v at h asked =
      let (p, changed, w, same) = change_channel-known k d v asked.0 in
      let m : Events e = record l { poller = p } in
      let onward = All-map xs (λ x known. same x.1 ∙ known) asked.1 in
      let (r, done, t) = serve_all-Turn c xs leaves m w at (same c ∙ h) onward in
      (
        r,
        ground (arith, changed, done),
        record { valid = t.valid; own = t.own; others = λ j other. t.others j other ∙ same j },
      )

  -- A turn leaves what the other channels ask for possible.
  Turn-MayAsk :
      (leaves : ℕ → Bool) (c d : ℕ) (l r : Events e) (xs : List (Change × ℕ))
      → Turn c (leaves c) l r
      → (c == d) ≡ false
      → MayAsk leaves l.poller d xs
      → MayAsk leaves r.poller d xs
  Turn-MayAsk leaves c d l r xs t other = All-map xs (λ x may. (
    elim (Bool-cases (c == x.1)) [
      | inr far ↦ t.others x.1 far ∙ may.0
      | inl near ↦
          let same : c ≡ x.1 = ground (arith, near) in
          ground (
            arith,
            may.1,
            other,
            t.own,
            same,
            ap leaves same,
            ap (λ y. has_channel y r.poller) same,
          )
    ],
    may.1,
  ))

  handle_channels-Turns :
      (asks : ℕ → List (Change × ℕ)) (leaves : ℕ → Bool) (cs : List ℕ) (l : Events e)
      → IsValid l.poller
      → IsDistinct cs
      → AreKnown l.poller cs
      → All (λ (c : ℕ). MayAsk leaves l.poller c (asks c)) cs
      → (r : Events e) × (handle_channels (λ c. requests c (asks c) (leaves c)) cs l
          ≡ ok (r, replicate (length cs) true))
        × IsValid r.poller
        × ((d : ℕ)
            → has_channel d r.poller
              ≡ (if is_active d cs then not (leaves d) else has_channel d l.poller))
  unfolding handle_channels
  handle_channels-Turns asks leaves [] l v apart h may = (l, refl, v, λ d. refl)
  handle_channels-Turns asks leaves (c ∷ cs) l v apart h may =
      let asked = All-map (asks c) (λ x y. y.0) may.0 in
      let l' : Events e = record l { current_active_channel = some c } in
      let (m, served, t) = serve_all-Turn c (asks c) (leaves c) l' v refl h.0 asked in
      let (r, handled, w, known) =
        handle_channels-Turns asks leaves cs m t.valid apart.1
          (All-both cs (λ d other y. t.others d other ∙ y) apart.0 h.1)
          (All-both cs (λ d other y. Turn-MayAsk leaves c d l' m (asks d) t other y) apart.0
            may.1) in
      (
        r,
        ground (arith, served, handled, h.0),
        w,
        λ d. elim (Bool-cases (c == d)) [
          | inr far ↦ ground (arith, known d, t.others d far, far)
          | inl near ↦
              let same : c ≡ d = ground (arith, near) in
              let gone : has_channel d m.poller ≡ not (leaves d) =
                subst (λ j. has_channel j m.poller ≡ not (leaves j)) same t.own in
              ground (arith, known d, gone, same)
        ],
      )

  -- Where a poll of a well-formed poller gives distinct channels that it knows, and the callbacks of
  -- each change channels that it knows, their own or ones that do not leave in this round, and then
  -- may disable and remove their own channel: every one of these calls succeeds, the `assert` of
  -- `removeChannel` and those of the poller included, each channel is known when its turn comes, and
  -- the poller stays well-formed. Afterwards it knows of the active channels those that did not leave,
  -- and of the others the same as before.
  pub handle_active-IsValid :
      (asks : ℕ → List (Change × ℕ)) (leaves : ℕ → Bool) (active : List ℕ) (l : Events e)
      → IsValid l.poller
      → IsDistinct active
      → AreKnown l.poller active
      → All (λ (c : ℕ). MayAsk leaves l.poller c (asks c)) active
      → (r : Events e) × (handle_active (λ c. requests c (asks c) (leaves c)) active l
          ≡ ok (r, replicate (length active) true))
        × IsValid r.poller
        × (r.event_handling ≡ false)
        × ((d : ℕ)
            → has_channel d r.poller
              ≡ (if is_active d active then not (leaves d) else has_channel d l.poller))
  unfolding handle_active
  handle_active-IsValid asks leaves active l v apart h may =
      let l' : Events e = record l { event_handling = true; active_channels = active } in
      let (s, handled, w, known) = handle_channels-Turns asks leaves active l' v apart h may in
      (
        record s { current_active_channel = none; event_handling = false },
        ground (arith, handled),
        w,
        refl,
        known,
      )
