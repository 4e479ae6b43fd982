-- ===== src/EventLoop/Channels.antt =====
-- net/EventLoop.cc: the active channels of one poll, and what their callbacks may do to the poller.
use ouge_net_lib.Common.{
  ℕ, Bool, true, false, ◌||◌, not, Option, none, some, List, [], ◌∷◌, ◌==◌, Result, ok, ◌>>=◌, ◌>>◌,
  assert,
}
use ouge_net_lib.Channel.{Change}
use ouge_net_lib.Poller.{Epoll, Poller, points_to, has_channel, change_channel, remove}

-- The loop's part of a poll: `activeChannels_`, `currentActiveChannel_` and `eventHandling_`.
pub record Events (e : Epoll) : Type 0 where
  pub poller : Poller e
  pub event_handling : Bool
  pub active_channels : List ℕ
  pub current_active_channel : Option ℕ

abbrev pub is_active : ℕ → List ℕ → Bool
is_active c [] = false
is_active c (d ∷ ds) = c == d || is_active c ds

-- What a callback asks of the loop: `enableReading` and the like, or `Channel::remove`.
pub data Request : Type 0 where
  changes : Change → ℕ → Request
  removes : ℕ → Request

module _ {e : Epoll} where
  -- The `assert` of `removeChannel`.
  unfoldable pub may_remove : ℕ → Events e → Bool
  may_remove c l =
      not l.event_handling
      || points_to l.current_active_channel c
      || not (is_active c l.active_channels)

  unfoldable pub remove_channel : ℕ → Events e → Result (Events e)
  unfolding may_remove
  remove_channel c l = do
    assert (may_remove c l)
    p ← remove c l.poller
    ok (record l { poller = p })

  unfoldable pub update_channel : Change → ℕ → Events e → Result (Events e)
  update_channel k c l = do p ← change_channel k c l.poller; ok (record l { poller = p })

  unfoldable pub serve : Request → Events e → Result (Events e)
  unfolding remove_channel update_channel
  serve (changes k c) l = update_channel k c l
  serve (removes c) l = remove_channel c l

  unfoldable pub serve_all : List Request → Events e → Result (Events e)
  unfolding serve
  serve_all [] l = ok l
  serve_all (x ∷ xs) l = do r ← serve x l; serve_all xs r

  -- The loop over the active channels: `calls c` is what the callbacks of the channel `c` ask for. It
  -- gives for each channel whether the poller knows it when its turn comes.
  unfoldable pub handle_channels :
      (ℕ → List Request) → List ℕ → Events e → Result (Events e × List Bool)
  unfolding serve_all
  handle_channels calls [] l = ok (l, [])
  handle_channels calls (c ∷ cs) l = do
    r ← serve_all (calls c) (record l { current_active_channel = some c })
    (s, known) ← handle_channels calls cs r
    ok (s, has_channel c l.poller ∷ known)

  unfoldable pub handle_active :
      (ℕ → List Request) → List ℕ → Events e → Result (Events e × List Bool)
  unfolding handle_channels
  handle_active calls active l = do
    (r, known) ←
        handle_channels calls active (record l { event_handling = true; active_channels = active })
    ok (record r { current_active_channel = none; event_handling = false }, known)
