-- ===== src/CountDownLatch/Releases.antt =====
-- Calls of `wait` and `countDown` in any order.
use ouge_net_lib.Common.{ℕ, zero, suc, ◌+◌, ◌≡◌, refl, true, List, [], ◌∷◌, arith, if◌then◌else◌}
use ouge_net_lib.CountDownLatch.{
  ℤ, pos, negsuc, pred, is_open, CountDownLatch, new_latch, wait, count_down,
}

pub data Event : Type 0 where
  waits counts_down : Event

abbrev pub act : Event → CountDownLatch → CountDownLatch × ℕ
act waits l = wait l
act counts_down l = count_down l

-- The latch after the events, and how many calls of `wait` have returned in them.
abbrev pub run : List Event → CountDownLatch → CountDownLatch × ℕ
run [] l = (l, 0)
run (e ∷ es) l = let (m, k) = act e l in let (r, n) = run es m in (r, k + n)

abbrev pub calls : List Event → ℕ
calls [] = 0
calls (waits ∷ es) = suc (calls es)
calls (counts_down ∷ es) = calls es

-- The count after the calls of `countDown`.
abbrev pub minus : ℤ → List Event → ℤ
minus n [] = n
minus n (waits ∷ es) = minus n es
minus n (counts_down ∷ es) = minus (pred n) es

minus_open : (n : ℤ) (es : List Event) → is_open n ≡ true → is_open (minus n es) ≡ true
minus_open n [] h = h
minus_open n (waits ∷ es) h = minus_open n es h
minus_open (pos zero) (counts_down ∷ es) h = minus_open (negsuc 0) es refl
minus_open (pos (suc n)) (counts_down ∷ es) h = absurd (ground (arith, h))
minus_open (negsuc n) (counts_down ∷ es) h = minus_open (negsuc (suc n)) es refl

-- Nobody sleeps where the count is not above 0.
abbrev pub IsValid : CountDownLatch → Type 0
IsValid l = is_open l.count ≡ true → l.asleep ≡ 0

abbrev Released : CountDownLatch → List Event → Type 0
Released l es =
    ((run es l).0.count ≡ minus l.count es)
    × ((run es l).1 ≡ (if is_open (minus l.count es) then l.asleep + calls es else 0))
    × ((run es l).0.asleep ≡ (if is_open (minus l.count es) then 0 else l.asleep + calls es))

run-Released : (es : List Event) (l : CountDownLatch) → IsValid l → Released l es
unfolding wait count_down
run-Released [] l v = ground (arith, v)
run-Released (waits ∷ es) l v =
    ground (arith, v, minus_open l.count es, run-Released es (wait l).0 (ground (arith, v)))
run-Released (counts_down ∷ es) l v =
    ground
      (arith, v, minus_open (pred l.count) es, run-Released es (count_down l).0 (ground (arith, v)))

-- On a new latch, along any calls of `wait` and `countDown` in any order: where `countDown` has brought
-- the count to 0 or below, every call of `wait` has returned and nobody sleeps, and before that none
-- has returned and all of them sleep.
pub new_latch-run :
    (count : ℤ) (es : List Event)
    → ((run es (new_latch count)).0.count ≡ minus count es)
      × ((run es (new_latch count)).1 ≡ (if is_open (minus count es) then calls es else 0))
      × ((run es (new_latch count)).0.asleep ≡ (if is_open (minus count es) then 0 else calls es))
unfolding new_latch
new_latch-run count es = ground (arith, run-Released es (new_latch count) (λ h. refl))
