-- ===== src/EventLoop/Owners.antt =====
-- `t_loopInThisThread` of net/EventLoop.cc: the loop that each thread counts as its own, from the
-- constructors and destructors of loops. A thread is its number, a loop its address.
use ouge_net_lib.Common.{
  ℕ, ◌≡◌, sym, ap, ◌∙◌, subst, false, ◌⊎◌, Bool-cases, inl, inr, Option, none, some, ◌==◌,
  if◌then◌else◌, arith,
}

-- The loops that live, each with the thread that made it.
pub record Threads : Type 0 where
  pub loop_in_this_thread : ℕ → Option ℕ
  pub alive : ℕ → Option ℕ

abbrev pub no_loops : Threads
no_loops = record { loop_in_this_thread = λ t. none; alive = λ l. none }

abbrev pub assign : ℕ → Option ℕ → (ℕ → Option ℕ) → ℕ → Option ℕ
assign n o f m = if m == n then o else f m

unfoldable pub get_event_loop_of_current_thread : ℕ → Threads → Option ℕ
get_event_loop_of_current_thread thread s = s.loop_in_this_thread thread

-- The constructor; where the thread has a loop it only logs that.
unfoldable pub construct : ℕ → ℕ → Threads → Threads
construct thread this s = record {
  loop_in_this_thread = elim (s.loop_in_this_thread thread) [
    | some loop ↦ s.loop_in_this_thread
    | none ↦ assign thread (some this) s.loop_in_this_thread
  ];
  alive = assign this (some thread) s.alive;
}

-- The destructor, in the thread that calls it.
unfoldable pub destruct : ℕ → ℕ → Threads → Threads
destruct thread this s = record {
  loop_in_this_thread = assign thread none s.loop_in_this_thread;
  alive = assign this none s.alive;
}

-- A loop is made at a free address, and destroyed in the thread that made it.
pub data Run : Threads → Type 0 where
  here : Run no_loops
  constructs :
      {s : Threads}
      → Run s
      → (thread this : ℕ) → s.alive this ≡ none
      → Run (construct thread this s)
  destructs :
      {s : Threads}
      → Run s
      → (thread this : ℕ) → s.alive this ≡ some thread
      → Run (destruct thread this s)

-- A thread's loop lives, and the thread made it.
abbrev IsAlive : Threads → Type 0
IsAlive s =
    (thread loop : ℕ) → s.loop_in_this_thread thread ≡ some loop → s.alive loop ≡ some thread

-- The loop of a thread after a constructor is the one before or the new one.
after_construct :
    (thread this t l : ℕ) (f : ℕ → Option ℕ) (o : Option ℕ)
    → (elim o as (λ x. ℕ → Option ℕ) [ some loop ↦ f | none ↦ assign thread (some this) f ]) t
      ≡ some l
    → (f t ≡ some l) ⊎ ((t ≡ thread) × (l ≡ this))
after_construct thread this t l f (some loop) e = inl e
after_construct thread this t l f none e = elim (Bool-cases (t == thread)) [
  | inl same ↦
      let got : some this ≡ some l = subst (λ b. (if b then some this else f t) ≡ some l) same e in
      inr (ground (arith, same), ground (arith, got))
  | inr other ↦ inl (subst (λ b. (if b then some this else f t) ≡ some l) other e)
]

constructs-IsAlive :
    (thread this : ℕ) (s : Threads)
    → IsAlive s
    → s.alive this ≡ none
    → IsAlive (construct thread this s)
unfolding construct
constructs-IsAlive thread this s h free t l e =
    elim (after_construct thread this t l s.loop_in_this_thread (s.loop_in_this_thread thread) e) [
      | inr (here_now, new) ↦ ground (arith, here_now, new)
      | inl before ↦ elim (Bool-cases (l == this)) [
        | inl same ↦
            let l_is : l ≡ this = ground (arith, same) in
            let both : none ≡ some t = sym free ∙ ap s.alive (sym l_is) ∙ h t l before in
            absurd (ground (arith, both))
        | inr other ↦ rw other (h t l before)
      ]
    ]

destructs-IsAlive :
    (thread this : ℕ) (s : Threads)
    → IsAlive s
    → s.alive this ≡ some thread
    → IsAlive (destruct thread this s)
unfolding destruct
destructs-IsAlive thread this s h mine t l e = elim (Bool-cases (t == thread)) [
  | inl same ↦
      let gone : none ≡ some l =
        subst (λ b. (if b then none else s.loop_in_this_thread t) ≡ some l) same e in
      absurd (ground (arith, gone))
  | inr other ↦
      let before : s.loop_in_this_thread t ≡ some l =
        subst (λ b. (if b then none else s.loop_in_this_thread t) ≡ some l) other e in
      elim (Bool-cases (l == this)) [
        | inl same ↦
            let l_is : l ≡ this = ground (arith, same) in
            let both : some t ≡ some thread = sym (h t l before) ∙ ap s.alive l_is ∙ mine in
            absurd (ground (arith, both, other))
        | inr apart ↦ rw apart (h t l before)
      ]
]

-- Along any constructors and destructors, each destructor in the thread that made the loop and each
-- new loop at a free address: the loop that `getEventLoopOfCurrentThread` gives lives, and the
-- thread that asks made it.
pub Run-get_event_loop_of_current_thread :
    {s : Threads} (thread loop : ℕ)
    → Run s
    → get_event_loop_of_current_thread thread s ≡ some loop
    → s.alive loop ≡ some thread
unfolding get_event_loop_of_current_thread
Run-get_event_loop_of_current_thread thread loop here e = absurd (ground (arith, e))
Run-get_event_loop_of_current_thread thread loop (constructs {s = s} run t this free) e =
    constructs-IsAlive t this s (λ a b. Run-get_event_loop_of_current_thread a b run) free thread
      loop e
Run-get_event_loop_of_current_thread thread loop (destructs {s = s} run t this mine) e =
    destructs-IsAlive t this s (λ a b. Run-get_event_loop_of_current_thread a b run) mine thread
      loop e

-- A second loop of a thread takes the first one's place from it at its end, though the first lives: both
-- were made by the thread, at different addresses.
pub construct-destruct :
    (thread first second : ℕ) (s : Threads)
    → first == second ≡ false
    → s.loop_in_this_thread thread ≡ none
    → (get_event_loop_of_current_thread thread (construct thread second (construct thread first s))
        ≡ some first)
      × (get_event_loop_of_current_thread thread
            (destruct thread second (construct thread second (construct thread first s)))
          ≡ none)
      × ((destruct thread second (construct thread second (construct thread first s))).alive first
          ≡ some thread)
unfolding get_event_loop_of_current_thread construct destruct
construct-destruct thread first second s apart free = ground (arith, apart, free)
