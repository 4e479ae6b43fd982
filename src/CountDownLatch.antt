-- ===== src/CountDownLatch.antt =====
-- base/CountDownLatch.h: a counter on which threads wait until it is not above 0. A call that waits
-- is asleep until `notify_all`; each call is one step under the mutex.
pub mod Releases
mod Examples
use ouge_net_lib.Common.{ℕ, zero, suc, ◌+◌, Bool, true, false, ◌==◌, if◌then◌else◌}

-- An `int`, whose least value is left out: a count from 0 up passes it only after 2 ^ 31 calls of
-- `countDown`.
pub data ℤ : Type 0 where
  pos : ℕ → ℤ
  negsuc : ℕ → ℤ

abbrev pub pred : ℤ → ℤ
pred (pos zero) = negsuc 0
pred (pos (suc n)) = pos n
pred (negsuc n) = negsuc (suc n)

abbrev pub is_zero : ℤ → Bool
is_zero (pos n) = n == 0
is_zero (negsuc n) = false

-- `count_ <= 0`
abbrev pub is_open : ℤ → Bool
is_open (pos n) = n == 0
is_open (negsuc n) = true

-- `asleep` counts the calls of `wait` that have not returned.
pub record CountDownLatch : Type 0 where
  pub count : ℤ
  pub asleep : ℕ

unfoldable pub new_latch : ℤ → CountDownLatch
new_latch count = record { count = count; asleep = 0 }

-- The latch, and how many calls return.
unfoldable pub wait : CountDownLatch → CountDownLatch × ℕ
wait l = if is_open l.count then (l, 1) else (record l { asleep = l.asleep + 1 }, 0)

-- `notify_all` wakes the sleepers, which find the condition true.
unfoldable pub count_down : CountDownLatch → CountDownLatch × ℕ
count_down l =
    let n = pred l.count in
    if is_zero n then (record { count = n; asleep = 0 }, l.asleep) else (record l { count = n }, 0)

unfoldable pub get_count : CountDownLatch → ℤ
get_count l = l.count
