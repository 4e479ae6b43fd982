-- ===== src/Poller.antt =====
-- net/Poller.{h,cc} and net/EPollPoller.{h,cc}, and the calls of net/Channel.h that end there. A
-- `Channel *` is its address, and `store` is the memory that holds the channels. The kernel's side
-- of epoll is the parameter `Epoll`.
pub mod Valid
pub mod Wait
pub mod Kernel
mod Examples
use ouge_net_lib.Common.{
  ℕ, ◌+◌, ◌≡◌, Bool, true, false, Option, none, some, ◌==◌, if◌then◌else◌, Result, ok, ◌>>=◌, ◌>>◌,
  assert, not,
}
use ouge_net_lib.Channel.{Channel, Index, new, added, deleted, Change, change, is_none_event}

pub data CtlOp : Type 0 where
  ctl_add ctl_mod ctl_del : CtlOp

abbrev pub update_at {ℓ} : {A : Type ℓ} → (ℕ → A) → ℕ → A → ℕ → A
update_at f k v j = if k == j then v else f j

-- `epoll_ctl` and the interest list that it maintains, as epoll_ctl(2) documents them: a descriptor
-- can be added where it is not registered, and modified or deleted where it is. The call gives
-- whether it succeeded.
pub record Epoll : Type 1 where
  pub Kernel : Type 0
  pub interest : Kernel → ℕ → Option (ℕ × ℕ)
  pub epoll_ctl : CtlOp → ℕ → ℕ → ℕ → Kernel → Kernel × Bool
  pub add_fresh :
      (fd ev ptr : ℕ) (k : Kernel)
      → interest k fd ≡ none
      → ((epoll_ctl ctl_add fd ev ptr k).1 ≡ true)
        × ((j : ℕ)
            → interest (epoll_ctl ctl_add fd ev ptr k).0 j
              ≡ update_at (interest k) fd (some (ev, ptr)) j)
  pub mod_known :
      (fd ev ptr : ℕ) (k : Kernel) (old : ℕ × ℕ)
      → interest k fd ≡ some old
      → ((epoll_ctl ctl_mod fd ev ptr k).1 ≡ true)
        × ((j : ℕ)
            → interest (epoll_ctl ctl_mod fd ev ptr k).0 j
              ≡ update_at (interest k) fd (some (ev, ptr)) j)
  pub del_known :
      (fd ev ptr : ℕ) (k : Kernel) (old : ℕ × ℕ)
      → interest k fd ≡ some old
      → ((epoll_ctl ctl_del fd ev ptr k).1 ≡ true)
        × ((j : ℕ)
            → interest (epoll_ctl ctl_del fd ev ptr k).0 j ≡ update_at (interest k) fd none j)

-- `complaints` counts the messages of `EPollPoller::update` about a failed `epoll_ctl`.
pub record Poller (e : Epoll) : Type 0 where
  pub channels : ℕ → Option ℕ
  pub store : ℕ → Channel
  pub kernel : e.Kernel
  pub complaints : ℕ

abbrev pub is_end : Option ℕ → Bool
is_end none = true
is_end (some c) = false

-- `it->second == channel`
abbrev pub points_to : Option ℕ → ℕ → Bool
points_to none c = false
points_to (some d) c = d == c

abbrev pub is_added : Index → Bool
is_added added = true
is_added _ = false

abbrev pub is_new : Index → Bool
is_new new = true
is_new _ = false

module _ {e : Epoll} where
  abbrev pub fd_of : Poller e → ℕ → ℕ
  fd_of p c = (p.store c).fd

  unfoldable pub set_index : ℕ → Index → Poller e → Poller e
  set_index c i p = record p { store = update_at p.store c (record (p.store c) { index = i }) }

  unfoldable pub update : CtlOp → ℕ → Poller e → Poller e
  update op c p =
      let (k, done) = e.epoll_ctl op (fd_of p c) (p.store c).events c p.kernel in
      record p { kernel = k; complaints = if done then p.complaints else p.complaints + 1 }

  -- The branches of `updateChannel` by `index ()`.
  unfoldable pub update_by : Index → ℕ → Poller e → Result (Poller e)
  unfolding set_index update
  update_by new c p = do
    assert (is_end (p.channels (fd_of p c)))
    let q = record p { channels = update_at p.channels (fd_of p c) (some c) }
    ok (update ctl_add c (set_index c added q))
  update_by deleted c p = do
    assert (not (is_end (p.channels (fd_of p c))))
    assert (points_to (p.channels (fd_of p c)) c)
    ok (update ctl_add c (set_index c added p))
  update_by added c p = do
    assert (not (is_end (p.channels (fd_of p c))))
    assert (points_to (p.channels (fd_of p c)) c)
    ok (
        if is_none_event (p.store c)
        then set_index c deleted (update ctl_del c p)
        else update ctl_mod c p)

  unfoldable pub update_channel : ℕ → Poller e → Result (Poller e)
  unfolding update_by
  update_channel c p = update_by (p.store c).index c p

  unfoldable pub remove_channel : ℕ → Poller e → Result (Poller e)
  unfolding set_index update
  remove_channel c p = do
    assert (not (is_end (p.channels (fd_of p c))))
    assert (points_to (p.channels (fd_of p c)) c)
    assert (is_none_event (p.store c))
    assert (not (is_new (p.store c).index))
    let q = record p { channels = update_at p.channels (fd_of p c) none }
    let r = if is_added (p.store c).index then update ctl_del c q else q
    ok (set_index c new r)

  unfoldable pub has_channel : ℕ → Poller e → Bool
  has_channel c p = points_to (p.channels (fd_of p c)) c

  -- `enableReading` and the like: the events change, and `update ()` reaches the poller.
  unfoldable pub change_channel : Change → ℕ → Poller e → Result (Poller e)
  unfolding update_channel
  change_channel k c p =
      update_channel c (record p { store = update_at p.store c (change k (p.store c)) })

  -- `Channel::remove`
  unfoldable pub remove : ℕ → Poller e → Result (Poller e)
  unfolding remove_channel
  remove c p = do
    assert (is_none_event (p.store c))
    let gone = record (p.store c) { added_to_loop = false }
    remove_channel c (record p { store = update_at p.store c gone })
