-- ===== src/Server/Stream.antt =====
-- `StreamStatus` of server/server.go: the goroutines of `sendLoop` and `recvLoop`, and the handler
-- that waits for them. A step is one blocking operation of one of the three; which one comes next is
-- given from outside, as is what the stream answers.
pub mod Returned
use cnr_sandbox.Base.{
  String, Bool, true, false, ◌&&◌, ◌||◌, Option, none, some, List, [], ◌∷◌, ◌==◌, if◌then◌else◌,
}
use cnr_sandbox.Base.Exec.{Error, message}
use cnr_sandbox.Server.State.{ClusterInfo}

-- `ErrStatusCanceled`
abbrev pub err_status_canceled : Error
err_status_canceled = message "gRPC stream status canceled"

-- The handler: in its `select`, in `wg.Wait` with the error that it will return, or returned.
pub data Handler : Type 0 where
  selecting : Handler
  joining returned : Option Error → Handler

-- `received` is what `errCh` holds once `recvLoop` has ended: the error or nil.
pub record Stream : Type 0 where
  pub sending : Bool
  pub received : Option (Option Error)
  pub handler : Handler
  pub sent : List (Option ClusterInfo)

pub data StreamEvent : Type 0 where
  -- sendLoop: the root context is done; the ticker fires, and `Send` succeeds or fails
  send_root_done send_failed : StreamEvent
  send_done : Option ClusterInfo → StreamEvent
  -- recvLoop: a request, the client's end, an error of the stream, the root context is done
  got_request got_eof : StreamEvent
  receive_failed receive_root_done : Error → StreamEvent
  -- the handler: `errCh` is ready, the stream's context is done, `wg.Wait` returns
  took_error joined_sender : StreamEvent
  stream_done : Error → StreamEvent

-- `is_canceled` is `errors.Is(err, context.Canceled)`.
unfoldable pub answer : (Error → Bool) → Option Error → Option Error
answer is_canceled none = none
answer is_canceled (some e) = some (if is_canceled e then err_status_canceled else e)

end_sender : Stream → Stream
end_sender s = record s { sending = false }

end_receiver : Option Error → Option (Option Error) → Stream → Stream
end_receiver r none s = record s { received = some r }
end_receiver r (some before) s = s

take_error : (Error → Bool) → Handler → Option (Option Error) → Stream → Stream
unfolding answer
take_error is_canceled selecting (some r) s = record s { handler = joining (answer is_canceled r) }
take_error is_canceled h r s = s

take_done : (Error → Bool) → Error → Handler → Stream → Stream
unfolding answer
take_done is_canceled e selecting s = record s { handler = joining (answer is_canceled (some e)) }
take_done is_canceled e h s = s

-- `wg` counts only the sender.
join_sender : Handler → Bool → Stream → Stream
join_sender (joining r) false s = record s { handler = returned r }
join_sender h b s = s

push : Option ClusterInfo → Bool → Stream → Stream
push info true s = record s { sent = info ∷ s.sent }
push info false s = s

-- One step; an event that cannot happen changes nothing.
unfoldable pub stream_step : (Error → Bool) → StreamEvent → Stream → Stream
unfolding end_sender end_receiver take_error take_done join_sender push
stream_step is_canceled send_root_done s = end_sender s
stream_step is_canceled send_failed s = end_sender s
stream_step is_canceled (send_done info) s = push info s.sending s
stream_step is_canceled got_request s = s
stream_step is_canceled got_eof s = end_receiver none s.received s
stream_step is_canceled (receive_failed e) s = end_receiver (some e) s.received s
stream_step is_canceled (receive_root_done e) s = end_receiver (some e) s.received s
stream_step is_canceled took_error s = take_error is_canceled s.handler s.received s
stream_step is_canceled (stream_done e) s = take_done is_canceled e s.handler s
stream_step is_canceled joined_sender s = join_sender s.handler s.sending s

unfoldable pub run_stream : (Error → Bool) → List StreamEvent → Stream → Stream
unfolding stream_step
run_stream is_canceled [] s = s
run_stream is_canceled (e ∷ es) s = run_stream is_canceled es (stream_step is_canceled e s)

abbrev pub open_stream : Stream
open_stream = record { sending = true; received = none; handler = selecting; sent = [] }

-- The codes of google.golang.org/grpc that `isClientCanceled` looks at.
pub data Code : Type 0 where
  canceled deadline_exceeded unavailable other_code : Code

code_canceled : (String → String → Bool) → (String → String → Bool) → Code → String → Bool
code_canceled has_prefix has_suffix canceled text = true
code_canceled has_prefix has_suffix deadline_exceeded text = true
code_canceled has_prefix has_suffix unavailable text =
    text == "client disconnected" || has_prefix text "stream error: " && has_suffix text "; CANCEL"
code_canceled has_prefix has_suffix other_code text = false

-- `isClientCanceled`, with `strings.HasPrefix`, `strings.HasSuffix` and what `status.FromError` finds.
unfoldable is_client_canceled :
    (String → String → Bool)
    → (String → String → Bool)
    → Option Error
    → Option (Code × String)
    → Bool
unfolding code_canceled
is_client_canceled has_prefix has_suffix (some e) found = true
is_client_canceled has_prefix has_suffix none none = false
is_client_canceled has_prefix has_suffix none (some (code, text)) =
    code_canceled has_prefix has_suffix code text
