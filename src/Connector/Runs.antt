-- ===== src/Connector/Runs.antt =====
-- What holds along every sequence of operations of a connector, and how its retries back off.
use ouge_net_lib.Common.{
  ℕ, zero, suc, ◌+◌, ◌*◌, ◌^◌, ◌≡◌, refl, sym, ap, ◌∙◌, Bool, true, false, min, List, some, [], ◌∷◌,
  ◌++◌, append-nil, append_assoc, arith, if◌then◌else◌, Result, ok, Ensures, subst,
}
use native.Mathlib.Nat.{pow-suc}
use ouge_net_lib.Channel.{Channel, is_none_event, change, change_events, none_event}
use ouge_net_lib.Connector.{
  is_connecting, connecting, Connector, Effect, close_socket, hand_over, start_after, Done,
  init_retry_delay_ms, max_retry_delay_ms, retry, start_in_loop, start, stop, restart,
  reset_channel, stop_in_loop, handle_write, handle_error,
}
use ouge_net_lib.Connector.Sockets.{
  released, resets, held, IsValid, Conserves, start-Conserves, start_in_loop-Conserves,
  handle_error-Conserves, stop_in_loop-Conserves, handle_write-Conserves, restart-Conserves,
  reset_channel-IsValid,
}

-- The calls of the user, the loop and the channel, each with what the system calls return.
pub data Operation : Type 0 where
  starts stops stops_in_loop errs : Operation
  starts_in_loop restarts : ℕ → ℕ → Operation
  writable : ℕ → Bool → Operation

abbrev pub perform : Operation → Connector → Result Done
perform starts c = ok (start c)
perform stops c = ok (stop c)
perform stops_in_loop c = stop_in_loop c
perform errs c = handle_error c
perform (starts_in_loop fd errno) c = start_in_loop fd errno c
perform (restarts fd errno) c = restart fd errno c
perform (writable error self_connect) c = handle_write error self_connect c

-- The socket that an operation opens.
abbrev pub opened_by : Operation → Connector → List ℕ
opened_by (starts_in_loop fd errno) c = if c.connect then fd ∷ [] else []
opened_by (restarts fd errno) c = fd ∷ []
opened_by _ c = []

-- `restart` is for a connection that has gone down, not for an attempt that is under way.
abbrev pub May : Operation → Connector → Type 0
May (restarts fd errno) c = is_connecting c.state ≡ false
May _ c = Unit {0}

-- One operation that passes its `assert`s, or a queued `resetChannel`.
pub data Step (c : Connector) (queued : ℕ) (c' : Connector) (queued' : ℕ) (opened : List ℕ)
    (es : List Effect) : Type 0 where
  performs :
      (o : Operation)
      → May o c
      → perform o c ≡ ok (c', es)
      → queued' ≡ queued + resets es
      → opened ≡ opened_by o c
      → Step c queued c' queued' opened es
  runs_reset :
      queued ≡ suc queued'
      → c' ≡ reset_channel c
      → es ≡ []
      → opened ≡ []
      → Step c queued c' queued' opened es

pub data Run (c : Connector) (queued : ℕ) : Connector → ℕ → List ℕ → List Effect → Type 0 where
  here : Run c queued c queued [] []
  next :
      {d d' : Connector} {q q' : ℕ} {opened_before opened : List ℕ} {before es : List Effect}
      → Run c queued d q opened_before before
      → Step d q d' q' opened es
      → Run c queued d' q' (opened_before ++ opened) (before ++ es)

perform-Conserves :
    (o : Operation) {c : Connector} {q : ℕ}
    → IsValid c q
    → May o c
    → Ensures (perform o c) (Conserves c q (opened_by o c))
perform-Conserves starts v may = (start-Conserves v).0
perform-Conserves stops v may = (start-Conserves v).1
perform-Conserves stops_in_loop v may = stop_in_loop-Conserves v
perform-Conserves errs v may = handle_error-Conserves v
perform-Conserves (starts_in_loop fd errno) v may = start_in_loop-Conserves fd errno v
perform-Conserves (restarts fd errno) v may = restart-Conserves fd errno v may
perform-Conserves (writable error self_connect) v may = handle_write-Conserves error self_connect v

Step-sockets :
    {c c' : Connector} {q q' : ℕ} {opened : List ℕ} {es : List Effect}
    → IsValid c q
    → Step c q c' q' opened es
    → IsValid c' q' × (held c ++ opened ≡ released es ++ held c')
Step-sockets {c} {c'} {q} {q'} {opened} {es} v (performs o may e count a) =
    let done : Conserves c q (opened_by o c) (c', es) =
      subst (λ r. Ensures r (Conserves c q (opened_by o c))) e (perform-Conserves o v may) in
    rw (count, a) (done.valid, done.sockets)
Step-sockets {c} {c'} {q} {q'} v (runs_reset n e none a) =
    let (w, same) = reset_channel-IsValid (subst (IsValid c) n v) in
    rw (e, none, a) (w, append-nil (held c) ∙ sym same)

released-append : (es fs : List Effect) → released (es ++ fs) ≡ released es ++ released fs
released-append [] fs = refl
released-append (close_socket fd ∷ es) fs = ap (fd ∷◌) (released-append es fs)
released-append (hand_over fd ∷ es) fs = ap (fd ∷◌) (released-append es fs)
released-append (e ∷ es) fs = released-append es fs

-- Along any run of operations from a well-formed connector, in which it is not restarted during an
-- attempt, the invariant holds: the channel watches one socket during an attempt and nothing behind
-- it, and the delay stays within its bounds. Every socket that was opened has been closed or handed
-- over exactly once, in the order of the attempts, but for the one that is under way.
pub Run-sockets :
    {c : Connector} {q : ℕ} {c' : Connector} {q' : ℕ} {opened : List ℕ} {es : List Effect}
    → IsValid c q
    → Run c q c' q' opened es
    → IsValid c' q' × (held c ++ opened ≡ released es ++ held c')
Run-sockets {c} v here = (v, append-nil (held c))
Run-sockets {c} v
      (next {d = d} {d' = d'} {opened_before = o₁} {opened = o₂} {before = es₁} {es = es₂} r s) =
    let (dv, before) = Run-sockets v r in
    let (w, after) = Step-sockets dv s in
    (
      w,
      sym (append_assoc (held c) o₁ o₂)
          ∙ ap (λ (ws : List ℕ). ws ++ o₂) before
          ∙ append_assoc (released es₁) (held d) o₂
          ∙ ap (◌++◌ (released es₁)) after
          ∙ sym (append_assoc (released es₁) (released es₂) (held d'))
          ∙ ap (λ (ws : List ℕ). ws ++ held d') (sym (released-append es₁ es₂)),
    )

-- What the end of an attempt leaves, whose channel was this one.
pub record Ended (ch : Channel) (d : Done) : Type 0 where
  pub idle : d.0.channel ≡ some (record ch { events = none_event; added_to_loop = false })
  pub over : is_connecting d.0.state ≡ false
  pub socket : released d.1 ≡ ch.fd ∷ []
  pub queued_reset : resets d.1 ≡ 1

-- A call that succeeds and ends the attempt.
abbrev pub Ends : Channel → Result Done → Type 0
Ends ch r = (d : Done) × (r ≡ ok d) × Ended ch d

-- On a well-formed connector whose channel still waits for events, so that the poller may report it,
-- `handleWrite`, `handleError` and `stopInLoop` succeed: none meets a null channel or a failed assert.
-- Each ends the attempt: it gives up the socket of the channel once, and leaves the channel off the
-- loop, waiting for nothing, with one `resetChannel` queued.
pub callbacks-Ends :
    (error : ℕ) (self_connect : Bool) {c : Connector} {q : ℕ} {ch : Channel}
    → IsValid c q
    → c.channel ≡ some ch
    → is_none_event ch ≡ false
    → Ends ch (handle_write error self_connect c)
      × Ends ch (handle_error c)
      × Ends ch (stop_in_loop c)
unfolding stop_in_loop handle_error handle_write change change_events is_none_event
callbacks-Ends error self_connect {c} {q} {ch} v there waits =
    let attempt : c.state ≡ connecting = ground (arith, v, there, waits) in
    rw (attempt, there) ((_, refl, ground arith), (_, refl, ground arith), (_, refl, ground arith))

-- A connector after `n` more attempts that were to be retried.
abbrev pub retried : ℕ → ℕ → Connector → Connector
retried fd zero c = c
retried fd (suc n) c = (retry fd (retried fd n c)).0

retried-connect : (fd n : ℕ) (c : Connector) → c.connect ≡ true → (retried fd n c).connect ≡ true
unfolding retry
retried-connect fd zero c h = h
retried-connect fd (suc n) c h = ground (arith, retried-connect fd n c h)

-- A connector that wants a connection and has the initial delay backs off: the `n`-th retry waits 500 * 2 ^ n milliseconds, but no more than 30
-- seconds.
pub retry-backoff :
    (fd n : ℕ) (c : Connector)
    → c.connect ≡ true
    → c.retry_delay_ms ≡ init_retry_delay_ms
    → ((retried fd n c).retry_delay_ms ≡ min (500 * 2 ^ n) max_retry_delay_ms)
      × ((retry fd (retried fd n c)).1
          ≡ close_socket fd ∷ start_after (min (500 * 2 ^ n) max_retry_delay_ms) ∷ [])
unfolding retry
retry-backoff fd zero c on h = ground (arith, on, h)
retry-backoff fd (suc n) c on h =
    let on' = retried-connect fd n c on in
    let before = (retry-backoff fd n c on h).0 in
    let double : min (min (500 * 2 ^ n) max_retry_delay_ms * 2) max_retry_delay_ms
        ≡ min (500 * 2 ^ suc n) max_retry_delay_ms =
      omega (arith, pow-suc 2 n) in
    ground (arith, on', before, double)
