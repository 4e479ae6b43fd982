-- ===== src/ThreadPool/Sleepers.antt =====
-- The threads of base/ThreadPool.cc that sleep on `notEmpty_`, and the steps of one thread.
use ouge_net_lib.Common.{
  ℕ, zero, suc, ◌+◌, ◌≡◌, refl, ap, false, Option, none, some, List, [], ◌∷◌, length, get_elem?,
  if◌then◌else◌, arith,
}
use ouge_net_lib.ThreadPool.{
  Worker, ThreadPool, is_asleep, some_asleep, wake_one, wake_all, set_worker, placed,
}

-- How many threads sleep.
abbrev pub sleeper : Worker → ℕ
sleeper w = if is_asleep w then 1 else 0

abbrev pub sleepers : List Worker → ℕ
sleepers [] = 0
sleepers (w ∷ ws) = sleeper w + sleepers ws

some_asleep-sleepers : (ws : List Worker) → sleepers ws ≡ 0 → some_asleep ws ≡ false
some_asleep-sleepers [] h = refl
some_asleep-sleepers (w ∷ ws) h = ground (arith, h, some_asleep-sleepers ws)

pub wake_one_awake : (k : ℕ) (ws : List Worker) → sleepers ws ≡ 0 → wake_one k ws ≡ ws
wake_one_awake k [] h = refl
wake_one_awake k (w ∷ ws) h = ground (arith, h, wake_one_awake k ws)

pub wake_all_awake : (ws : List Worker) → sleepers ws ≡ 0 → wake_all ws ≡ ws
wake_all_awake [] h = refl
wake_all_awake (w ∷ ws) h = ground (arith, h, wake_all_awake ws)

pub sleepers-wake_all : (ws : List Worker) → sleepers (wake_all ws) ≡ 0
sleepers-wake_all [] = refl
sleepers-wake_all (w ∷ ws) = ground (arith, sleepers-wake_all ws)

pub length-wake_all : (ws : List Worker) → length (wake_all ws) ≡ length ws
length-wake_all [] = refl
length-wake_all (w ∷ ws) = ap suc (length-wake_all ws)

pub sleepers-set_worker :
    (i : ℕ) (v w : Worker) (ws : List Worker)
    → get_elem? ws i ≡ some v
    → sleepers (set_worker i w ws) + sleeper v ≡ sleepers ws + sleeper w
sleepers-set_worker i v w [] h = absurd (ground (arith, h))
sleepers-set_worker zero v w (u ∷ ws) h =
    let same : u ≡ v = ground (arith, h) in rw same (omega arith)
sleepers-set_worker (suc i) v w (u ∷ ws) h = omega (arith, sleepers-set_worker i v w ws h)

pub placed_lem :
    (i : ℕ) (o : Option (Worker × ThreadPool)) (q : ThreadPool)
    → placed i o ≡ some q
    → (v : Worker) × (r : ThreadPool) × (o ≡ some (v, r))
      × (q ≡ record r { threads = set_worker i v r.threads })
placed_lem i none q h = absurd (ground (arith, h))
placed_lem i (some (v, r)) q h = (v, r, refl, ground (arith, h))
