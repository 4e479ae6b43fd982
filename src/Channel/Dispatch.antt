-- ===== src/Channel/Dispatch.antt =====
-- `handleEvent`: which callbacks run for the events that the poller saw, and in which order. `S` is
-- whatever the callbacks change, the channel itself included.
use Prim.Native.Nat.{bit_or}
use ouge_net_lib.Common.{
  ℕ, ◌≡◌, refl, sym, ap, ap₂, ◌∙◌, Bool, true, false, ◌&&◌, ◌||◌, not, Option, none, some, List, [],
  ◌∷◌, if◌then◌else◌, arith, Bool-cases, inl, inr, has-or,
}
use ouge_net_lib.Channel.{
  has, poll_in, poll_pri, poll_out, poll_err, poll_hup, poll_nval, poll_rdhup,
}

-- A callback that is not set is `none`. The read callback takes the time of the poll.
pub record Callbacks (S : Type 0) : Type 0 where
  pub read_callback : Option (ℕ → S → S)
  pub write_callback : Option (S → S)
  pub close_callback : Option (S → S)
  pub error_callback : Option (S → S)

abbrev pub call : {S : Type 0} → Option (S → S) → S → S
call none s = s
call (some f) s = f s

abbrev pub call_at : {S : Type 0} → Option (ℕ → S → S) → ℕ → S → S
call_at none time s = s
call_at (some f) time s = f time s

module _ {S : Type 0} (set_handling : Bool → S → S) where
  -- `revents_` is set by the poller only, so that it does not change during the calls.
  unfoldable pub handle_event_with_guard : Callbacks S → ℕ → ℕ → S → S
  handle_event_with_guard cb revents time s =
      let s₀ = set_handling true s in
      let s₁ =
        if has revents poll_hup && not (has revents poll_in)
        then call cb.close_callback s₀
        else s₀ in
      let s₂ = if has revents (bit_or poll_err poll_nval) then call cb.error_callback s₁ else s₁ in
      let s₃ =
        if has revents (bit_or poll_in (bit_or poll_pri poll_rdhup))
        then call_at cb.read_callback time s₂
        else s₂ in
      let s₄ = if has revents poll_out then call cb.write_callback s₃ else s₃ in
      set_handling false s₄

  -- `alive` is whether `tie_.lock ()` gives an object.
  unfoldable pub handle_event : Callbacks S → Bool → Bool → ℕ → ℕ → S → S
  unfolding handle_event_with_guard
  handle_event cb tied alive revents time s =
      if tied
      then if alive then handle_event_with_guard cb revents time s else s
      else handle_event_with_guard cb revents time s

-- The callbacks by name, in the order of the calls.
pub data Kind : Type 0 where
  close error read write : Kind

abbrev pub run_kind : {S : Type 0} → Callbacks S → ℕ → Kind → S → S
run_kind cb time close s = call cb.close_callback s
run_kind cb time error s = call cb.error_callback s
run_kind cb time read s = call_at cb.read_callback time s
run_kind cb time write s = call cb.write_callback s

abbrev pub run_kinds : {S : Type 0} → Callbacks S → ℕ → List Kind → S → S
run_kinds cb time [] s = s
run_kinds cb time (k ∷ ks) s = run_kinds cb time ks (run_kind cb time k s)

-- When each is due: a hang-up counts as a close only once nothing is left to read.
abbrev pub due : Kind → ℕ → Bool
due close ev = has ev poll_hup && not (has ev poll_in)
due error ev = has ev poll_err || has ev poll_nval
due read ev = has ev poll_in || has ev poll_pri || has ev poll_rdhup
due write ev = has ev poll_out

abbrev pub keep_due : ℕ → List Kind → List Kind
keep_due ev [] = []
keep_due ev (k ∷ ks) = let rest = keep_due ev ks in if due k ev then k ∷ rest else rest

abbrev pub kinds : List Kind
kinds = close ∷ error ∷ read ∷ write ∷ []

run-keep_due :
    {S : Type 0} (cb : Callbacks S) (time ev : ℕ) (k : Kind) (ks : List Kind) (s : S)
    → run_kinds cb time (keep_due ev (k ∷ ks)) s
      ≡ run_kinds cb time (keep_due ev ks) (if due k ev then run_kind cb time k s else s)
run-keep_due cb time ev k ks s = elim (Bool-cases (due k ev)) [
  | inl yes_due ↦ rw yes_due
  | inr not_due ↦ rw not_due
]

due-error : (ev : ℕ) → due error ev ≡ has ev (bit_or poll_err poll_nval)
due-error ev = sym (has-or ev poll_err poll_nval)

due-read : (ev : ℕ) → due read ev ≡ has ev (bit_or poll_in (bit_or poll_pri poll_rdhup))
due-read ev =
    let inner = has-or ev poll_pri poll_rdhup in
    let outer = has-or ev poll_in (bit_or poll_pri poll_rdhup) in
    or_assoc (has ev poll_in) (has ev poll_pri) (has ev poll_rdhup)
    ∙ sym (outer ∙ ap (λ b. has ev poll_in || b) inner)
  where
    or_assoc : (a b c : Bool) → ((a || b) || c) ≡ (a || (b || c))
    or_assoc a b c = ground arith

guard-fired :
    {S : Type 0} (set_handling : Bool → S → S) (cb : Callbacks S) (revents time : ℕ) (s : S)
    → handle_event_with_guard set_handling cb revents time s
      ≡ set_handling false (run_kinds cb time (keep_due revents kinds) (set_handling true s))
unfolding handle_event_with_guard
guard-fired {S} set_handling cb ev time s =
    let s₁ : S =
      if due close ev then call cb.close_callback (set_handling true s) else set_handling true s in
    let staged : Bool → Bool → S = λ e r.
      let s₂ = if e then call cb.error_callback s₁ else s₁ in
      let s₃ = if r then call_at cb.read_callback time s₂ else s₂ in
      set_handling false (if due write ev then call cb.write_callback s₃ else s₃) in
    rw (run-keep_due cb time ev close (error ∷ read ∷ write ∷ []) (set_handling true s)) (
      rw (run-keep_due cb time ev error (read ∷ write ∷ []) _) (
        rw (run-keep_due cb time ev read (write ∷ []) _) (
          rw (run-keep_due cb time ev write [] _)
            (ap₂ staged (sym (due-error ev)) (sym (due-read ev))))))

-- A channel with no owner, or whose owner lives, runs the callbacks that are due, each once, in the
-- order close, error, read, write, between setting and clearing `eventHandling_`; a channel whose
-- owner is gone runs none and changes nothing.
pub handle_event_lem :
    {S : Type 0} (set_handling : Bool → S → S) (cb : Callbacks S) (tied alive : Bool)
    (revents time : ℕ) (s : S)
    → handle_event set_handling cb tied alive revents time s ≡ (
        if tied && not alive
        then s
        else set_handling false (run_kinds cb time (keep_due revents kinds) (set_handling true s)))
unfolding handle_event
handle_event_lem set_handling cb false alive revents time s =
    guard-fired set_handling cb revents time s
handle_event_lem set_handling cb true true revents time s =
    guard-fired set_handling cb revents time s
handle_event_lem set_handling cb true false revents time s = refl
