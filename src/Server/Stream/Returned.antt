-- ===== src/Server/Stream/Returned.antt =====
-- When `StreamStatus` of server/server.go returns.
use mathlib.Core.Path.{subst}
use cnr_sandbox.Base.{
  arith, Bool, true, false, Option, none, some, List, [], ◌∷◌, ◌≡◌, ◌≢◌, refl, All, Bool-cases, ◌⊎◌,
  inl, inr,
}
use cnr_sandbox.Base.Exec.{Error}
use cnr_sandbox.Server.State.{ClusterInfo}
use cnr_sandbox.Server.Stream.{
  Handler, selecting, joining, returned, Stream, StreamEvent, send_root_done, send_failed,
  send_done, got_request, got_eof, receive_failed, receive_root_done, took_error, joined_sender,
  stream_done, err_status_canceled, answer, stream_step, run_stream, open_stream, end_sender,
  end_receiver, take_error, take_done, join_sender, push,
}

-- The events that end `sendLoop`.
abbrev pub EndsSender : StreamEvent → Type 0
EndsSender send_root_done = Unit
EndsSender send_failed = Unit
EndsSender e = ⊥

has_returned : Handler → Bool
has_returned (returned r) = true
has_returned h = false

-- The handler has not returned and the sender runs.
IsRunning : Stream → Type 0
IsRunning s = (s.sending ≡ true) × (has_returned s.handler ≡ false)

-- What the `select` of `StreamStatus` takes in a run, if it takes anything: the first event by which
-- the stream's context is done, with its error, or by which `errCh` is read, with what the first end
-- of `recvLoop` put there.
unfoldable pub taken : List StreamEvent → Option (Option Error) → Option (Option Error)
taken [] received = none
taken (stream_done e ∷ es) received = some (some e)
taken (took_error ∷ es) (some r) = some r
taken (took_error ∷ es) none = taken es none
taken (got_eof ∷ es) none = taken es (some none)
taken (receive_failed e ∷ es) none = taken es (some (some e))
taken (receive_root_done e ∷ es) none = taken es (some (some e))
taken (got_eof ∷ es) (some r) = taken es (some r)
taken (receive_failed e ∷ es) (some r) = taken es (some r)
taken (receive_root_done e ∷ es) (some r) = taken es (some r)
taken (send_root_done ∷ es) received = taken es received
taken (send_failed ∷ es) received = taken es received
taken (send_done info ∷ es) received = taken es received
taken (got_request ∷ es) received = taken es received
taken (joined_sender ∷ es) received = taken es received

module _ (is_canceled : Error → Bool) where
  step-IsRunning :
      (e : StreamEvent) (s : Stream)
      → (EndsSender e → ⊥)
      → IsRunning s
      → IsRunning (stream_step is_canceled e s)
  unfolding IsRunning has_returned stream_step
  step-IsRunning send_root_done s n h = absurd (n tt)
  step-IsRunning send_failed s n h = absurd (n tt)
  step-IsRunning (send_done info) s n h = ground (arith, h.0, h.1)
  step-IsRunning got_request s n h = h
  step-IsRunning got_eof s n h = ground (arith, h.0, h.1)
  step-IsRunning (receive_failed e) s n h = ground (arith, h.0, h.1)
  step-IsRunning (receive_root_done e) s n h = ground (arith, h.0, h.1)
  step-IsRunning took_error s n h = ground (arith, h.0, h.1)
  step-IsRunning (stream_done e) s n h = ground (arith, h.0, h.1)
  step-IsRunning joined_sender s n h = ground (arith, h.0, h.1)

  run-IsRunning :
      (es : List StreamEvent) (s : Stream)
      → All (λ (e : StreamEvent). EndsSender e → ⊥) es
      → IsRunning s
      → IsRunning (run_stream is_canceled es s)
  unfolding run_stream
  run-IsRunning [] s n h = h
  run-IsRunning (e ∷ es) s n h =
      run-IsRunning es (stream_step is_canceled e s) n.1 (step-IsRunning e s n.0 h)

  -- As long as every send succeeds and the sender does not see the end of the root context, `StreamStatus` does not return, whatever the client sends, also after its end of the stream, after an error of the receiver and after the end of the stream's context.
  pub stream_stays_open :
      (es : List StreamEvent) (r : Option Error)
      → All (λ (e : StreamEvent). EndsSender e → ⊥) es
      → (run_stream is_canceled es open_stream).handler ≢ returned r
  unfolding IsRunning has_returned
  stream_stays_open es r n e =
      let kept = run-IsRunning es open_stream n (refl, refl) in ground (arith, kept.1)

  -- The error as `StreamStatus` reports it.
  abbrev pub IsReported : Option Error → Option Error → Type 0
  IsReported none r = r ≡ none
  IsReported (some e) r =
      ((is_canceled e ≡ true) × (r ≡ some err_status_canceled))
      ⊎ ((is_canceled e ≡ false) × (r ≡ some e))

  answer-IsReported : (x : Option Error) → IsReported x (answer is_canceled x)
  unfolding answer
  answer-IsReported none = refl
  answer-IsReported (some e) = elim (Bool-cases (is_canceled e)) [
    | inl p ↦ inl (p, rw p refl)
    | inr p ↦ inr (p, rw p refl)
  ]

  -- What the handler will return, given what its `select` will take in the rest of a run.
  Awaits : Handler → Option (Option Error) → Option Error → Type 0
  unfolding answer
  Awaits selecting next r = (x : Option Error) × (next ≡ some x) × (answer is_canceled x ≡ r)
  Awaits (joining y) next r = y ≡ r
  Awaits (returned y) next r = y ≡ r

  run-Awaits :
      (es : List StreamEvent) (sending : Bool) (received : Option (Option Error)) (h : Handler)
      (sent : List (Option ClusterInfo)) (r : Option Error)
      → (let s : Stream = record {
        sending = sending;
        received = received;
        handler = h;
        sent = sent;
      } in
          (run_stream is_canceled es s).handler ≡ returned r → Awaits h (taken es received) r)
  unfolding run_stream stream_step end_sender end_receiver take_error take_done join_sender push
      Awaits taken
  run-Awaits [] b rec selecting sent r e = cc
  run-Awaits [] b rec (joining y) sent r e = cc
  run-Awaits [] b rec (returned y) sent r e = cc
  run-Awaits (send_root_done ∷ es) b rec h sent r e = run-Awaits es false rec h sent r e
  run-Awaits (send_failed ∷ es) b rec h sent r e = run-Awaits es false rec h sent r e
  run-Awaits (send_done info ∷ es) true rec h sent r e = run-Awaits es true rec h (info ∷ sent) r e
  run-Awaits (send_done info ∷ es) false rec h sent r e = run-Awaits es false rec h sent r e
  run-Awaits (got_request ∷ es) b rec h sent r e = run-Awaits es b rec h sent r e
  run-Awaits (got_eof ∷ es) b none h sent r e = run-Awaits es b (some none) h sent r e
  run-Awaits (got_eof ∷ es) b (some x) h sent r e = run-Awaits es b (some x) h sent r e
  run-Awaits (receive_failed z ∷ es) b none h sent r e = run-Awaits es b (some (some z)) h sent r e
  run-Awaits (receive_failed z ∷ es) b (some x) h sent r e = run-Awaits es b (some x) h sent r e
  run-Awaits (receive_root_done z ∷ es) b none h sent r e =
      run-Awaits es b (some (some z)) h sent r e
  run-Awaits (receive_root_done z ∷ es) b (some x) h sent r e = run-Awaits es b (some x) h sent r e
  run-Awaits (took_error ∷ es) b none selecting sent r e = run-Awaits es b none selecting sent r e
  run-Awaits (took_error ∷ es) b (some x) selecting sent r e =
      (x, refl, run-Awaits es b (some x) (joining (answer is_canceled x)) sent r e)
  run-Awaits (took_error ∷ es) b rec (joining y) sent r e = run-Awaits es b rec (joining y) sent r e
  run-Awaits (took_error ∷ es) b rec (returned y) sent r e =
      run-Awaits es b rec (returned y) sent r e
  run-Awaits (stream_done z ∷ es) b rec selecting sent r e =
      (some z, refl, run-Awaits es b rec (joining (answer is_canceled (some z))) sent r e)
  run-Awaits (stream_done z ∷ es) b rec (joining y) sent r e =
      run-Awaits es b rec (joining y) sent r e
  run-Awaits (stream_done z ∷ es) b rec (returned y) sent r e =
      run-Awaits es b rec (returned y) sent r e
  run-Awaits (joined_sender ∷ es) b rec selecting sent r e = run-Awaits es b rec selecting sent r e
  run-Awaits (joined_sender ∷ es) true rec (joining y) sent r e =
      run-Awaits es true rec (joining y) sent r e
  run-Awaits (joined_sender ∷ es) false rec (joining y) sent r e =
      run-Awaits es false rec (returned y) sent r e
  run-Awaits (joined_sender ∷ es) b rec (returned y) sent r e =
      run-Awaits es b rec (returned y) sent r e

  -- Where the handler has returned, the sender has ended.
  HasJoined : Handler → Bool → Type 0
  HasJoined (returned y) b = b ≡ false
  HasJoined selecting b = Unit
  HasJoined (joining y) b = Unit

  ended-HasJoined : (h : Handler) → HasJoined h false
  unfolding HasJoined
  ended-HasJoined selecting = tt
  ended-HasJoined (joining y) = tt
  ended-HasJoined (returned y) = refl

  step-HasJoined :
      (e : StreamEvent) (b : Bool) (received : Option (Option Error)) (h : Handler)
      (sent : List (Option ClusterInfo))
      → HasJoined h b
      → (let t =
            stream_step is_canceled e
              (record { sending = b; received = received; handler = h; sent = sent }) in
          HasJoined t.handler t.sending)
  unfolding stream_step end_sender end_receiver take_error take_done join_sender push HasJoined
  step-HasJoined send_root_done b rec h sent k = ended-HasJoined h
  step-HasJoined send_failed b rec h sent k = ended-HasJoined h
  step-HasJoined (send_done info) true rec h sent k = k
  step-HasJoined (send_done info) false rec h sent k = k
  step-HasJoined got_request b rec h sent k = k
  step-HasJoined got_eof b none h sent k = k
  step-HasJoined got_eof b (some x) h sent k = k
  step-HasJoined (receive_failed z) b none h sent k = k
  step-HasJoined (receive_failed z) b (some x) h sent k = k
  step-HasJoined (receive_root_done z) b none h sent k = k
  step-HasJoined (receive_root_done z) b (some x) h sent k = k
  step-HasJoined took_error b none selecting sent k = tt
  step-HasJoined took_error b (some x) selecting sent k = tt
  step-HasJoined took_error b rec (joining y) sent k = tt
  step-HasJoined took_error b rec (returned y) sent k = k
  step-HasJoined (stream_done z) b rec selecting sent k = tt
  step-HasJoined (stream_done z) b rec (joining y) sent k = tt
  step-HasJoined (stream_done z) b rec (returned y) sent k = k
  step-HasJoined joined_sender b rec selecting sent k = tt
  step-HasJoined joined_sender true rec (joining y) sent k = tt
  step-HasJoined joined_sender false rec (joining y) sent k = refl
  step-HasJoined joined_sender b rec (returned y) sent k = k

  run-HasJoined :
      (es : List StreamEvent) (s : Stream)
      → HasJoined s.handler s.sending
      → (let t = run_stream is_canceled es s in HasJoined t.handler t.sending)
  unfolding run_stream
  run-HasJoined [] s k = k
  run-HasJoined (e ∷ es) s k =
      run-HasJoined es (stream_step is_canceled e s)
        (step-HasJoined e s.sending s.received s.handler s.sent k)

  joined_at_end :
      (h : Handler) (b : Bool) (r : Option Error) → HasJoined h b → h ≡ returned r → b ≡ false
  unfolding HasJoined
  joined_at_end selecting b r k e = cc
  joined_at_end (joining y) b r k e = cc
  joined_at_end (returned y) b r k e = k

  -- When `StreamStatus` has returned, `sendLoop` has ended, and what is returned is what the `select` took first, the error of the stream's context or what the first end of `recvLoop` put into `errCh`: nil for nil, `ErrStatusCanceled` for an error that says that a context was cancelled, and any other error as it is.
  pub stream_status_returned :
      (es : List StreamEvent) (r : Option Error)
      → (run_stream is_canceled es open_stream).handler ≡ returned r
      → ((run_stream is_canceled es open_stream).sending ≡ false)
        × ((x : Option Error) × (taken es none ≡ some x) × IsReported x r)
  unfolding Awaits
  stream_status_returned es r e =
      let end = run_stream is_canceled es open_stream in
      let (x, took, same) = run-Awaits es true none selecting [] r e in
      (
        joined_at_end end.handler end.sending r
            (run-HasJoined es open_stream (unfold HasJoined in tt)) e,
        (x, took, subst (IsReported x) same (answer-IsReported x)),
      )
