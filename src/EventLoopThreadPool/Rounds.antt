-- ===== src/EventLoopThreadPool/Rounds.antt =====
-- Round robin: each round hands out every loop once, in order.
use ouge_net_lib.Common.{
  ℕ, zero, suc, ◌+◌, ◌%◌, ◌<◌, ◌≡◌, refl, sym, ap, ◌∙◌, Bool, true, false, some, List, [], ◌∷◌,
  length, get_elem?, arith, drop, drop_all, Result, ok, ◌>>=◌, ◌⊎◌, inl, inr,
}
use ouge_net_lib.EventLoopThreadPool.{
  EventLoopThreadPool, new_pool, start_loops, start, is_empty, get_next_loop, get_loop_for_hash,
  get_all_loops,
}

-- `k` calls of `getNextLoop`.
unfoldable pub picks : ℕ → EventLoopThreadPool → Result (List ℕ × EventLoopThreadPool)
picks zero p = ok ([], p)
picks (suc k) p = do (loop, q) ← get_next_loop p; (rest, r) ← picks k q; ok (loop ∷ rest, r)

pub nth_exists :
    (xs : List ℕ) (i : ℕ)
    → i < length xs
    → (x : ℕ) × (get_elem? xs i ≡ some x) × (drop i xs ≡ x ∷ drop (suc i) xs)
nth_exists [] i h = absurd (omega arith)
nth_exists (y ∷ xs) zero h = (y, refl, refl)
nth_exists (y ∷ xs) (suc i) h = nth_exists xs i (omega arith)

is_empty-false : (xs : List ℕ) (i : ℕ) → i < length xs → is_empty xs ≡ false
is_empty-false [] i h = absurd (omega arith)
is_empty-false (x ∷ xs) i h = refl

-- The rest of a round.
picks-rest :
    (k i : ℕ) (p : EventLoopThreadPool)
    → p.started ≡ true
    → p.next ≡ i
    → i + suc k ≡ length p.loops
    → picks (suc k) p ≡ ok (drop i p.loops, record p { next = 0 })
unfolding picks get_next_loop
picks-rest zero i p up at h =
    let (x, e, d) = nth_exists p.loops i (omega arith) in
    ground
      (arith, e, d, drop_all (suc i) p.loops (omega arith), is_empty-false p.loops i (omega arith))
picks-rest (suc k) i p up at h =
    let (x, e, d) = nth_exists p.loops i (omega arith) in
    let rest = picks-rest k (suc i) (record p { next = suc i }) up refl (omega arith) in
    ground (arith, e, d, rest, is_empty-false p.loops i (omega arith))

-- On a started pool with loops that stands at the start of a round, as many calls of `getNextLoop` as
-- there are loops give each of them once, in order, and bring the pool back to where it was.
pub picks_round :
    (p : EventLoopThreadPool)
    → p.started ≡ true
    → p.next ≡ 0
    → 0 < length p.loops
    → picks (length p.loops) p ≡ ok (p.loops, p)
picks_round p up at some_loop = by_length (length p.loops) refl
  where
    back : record p { next = 0 } ≡ p
    back = ap (λ n. record p { next = n }) (sym at)

    by_length : (n : ℕ) → length p.loops ≡ n → picks n p ≡ ok (p.loops, p)
    by_length zero e = absurd (omega arith)
    by_length (suc k) e = picks-rest k 0 p up at (omega (arith, e)) ∙ ap (λ q. ok (p.loops, q)) back

-- The loops of `n` threads that all start.
abbrev pub loops_of : (ℕ → ℕ) → ℕ → ℕ → List ℕ
loops_of loop_of i zero = []
loops_of loop_of i (suc n) = loop_of i ∷ loops_of loop_of (suc i) n

length-loops_of : (loop_of : ℕ → ℕ) (i n : ℕ) → length (loops_of loop_of i n) ≡ n
length-loops_of loop_of i zero = refl
length-loops_of loop_of i (suc n) = ap suc (length-loops_of loop_of (suc i) n)

module _ (start_loop : ℕ → Result ℕ) (loop_of : ℕ → ℕ)
    (starts : (i : ℕ) → start_loop i ≡ ok (loop_of i)) where
  start_loops_lem : (i n : ℕ) → start_loops start_loop i n ≡ ok (loops_of loop_of i n)
  unfolding start_loops
  start_loops_lem i zero = refl
  start_loops_lem i (suc n) = rw (starts i, start_loops_lem (suc i) n) refl

  -- Where every thread starts, `start` of a new pool of `n` threads, at least one, starts them in
  -- order; the first `n` calls of `getNextLoop` then give their loops in that order, and `getAllLoops`
  -- gives all of them.
  pub start_round :
      (base_loop n : ℕ) (cb_set : Bool)
      → 0 < n
      → (p : EventLoopThreadPool) × (start start_loop cb_set
            (record (new_pool base_loop) { num_threads = n })
          ≡ ok (p, false))
        × (picks n p ≡ ok (loops_of loop_of 0 n, p))
        × (get_all_loops p ≡ ok (loops_of loop_of 0 n))
  unfolding start new_pool get_all_loops
  start_round base_loop n cb_set some_thread =
      let loops = loops_of loop_of 0 n in
      let size = length-loops_of loop_of 0 n in
      let p : EventLoopThreadPool = record {
        base_loop = base_loop;
        started = true;
        num_threads = n;
        next = 0;
        loops = loops;
      } in
      (
        p,
        ground (arith, start_loops_lem 0 n),
        ap (λ k. picks k p) (sym size) ∙ picks_round p refl refl (omega (arith, size)),
        ground (arith, is_empty-false loops 0 (omega (arith, size))),
      )

-- `getLoopForHash` never reads outside the loops: it gives the base loop where there are none, and
-- else the loop at the remainder of the code.
pub get_loop_for_hash_lem :
    (hash_code : ℕ) (p : EventLoopThreadPool)
    → ((p.loops ≡ []) × (get_loop_for_hash hash_code p ≡ ok p.base_loop))
      ⊎ ((x : ℕ) × (get_elem? p.loops (hash_code % length p.loops) ≡ some x)
          × (get_loop_for_hash hash_code p ≡ ok x))
unfolding get_loop_for_hash
get_loop_for_hash_lem hash_code p = by_loops p.loops refl
  where
    by_loops :
        (xs : List ℕ)
        → p.loops ≡ xs
        → ((xs ≡ []) × (get_loop_for_hash hash_code p ≡ ok p.base_loop))
          ⊎ ((x : ℕ) × (get_elem? xs (hash_code % length xs) ≡ some x)
              × (get_loop_for_hash hash_code p ≡ ok x))
    by_loops [] e = inl (refl, rw e)
    by_loops (y ∷ ys) e =
        let (x, f, d) = nth_exists (y ∷ ys) (hash_code % length (y ∷ ys)) (omega arith) in
        inr (x, f, rw e (rw f refl))
