-- ===== src/Tests/Stream.antt =====
-- A genesis and a status stream in small surroundings.
use cnr_sandbox.Base.{ℕ, suc, false, none, List, [], ◌∷◌, ◌≡◌, ◌≢◌, refl, Option, some, true}
use cnr_sandbox.Base.Exec.{Error, ok, message}
use cnr_sandbox.Config.Genesis.{
  AddrAndBalance, Genesis, Library, new_avalanche_go_genesis, reserved,
}
use cnr_sandbox.Config.Genesis.Built.{IsFor, new_avalanche_go_genesis_lem}
use cnr_sandbox.Server.Stream.{
  StreamEvent, send_done, send_failed, got_eof, took_error, joined_sender, stream_done, returned,
  run_stream, open_stream, err_status_canceled,
}
use cnr_sandbox.Server.Stream.Returned.{
  stream_stays_open, taken, IsReported, stream_status_returned,
}

abbrev library : Library
library = record {
  State = ℕ;
  testnet_id = 5;
  mainnet_id = 1;
  local_id = 12345;
  mega_avax = 1000;
  format_x = λ id bytes. bytes;
  short_id = λ s. ("address", suc s);
  now = λ s. (s, suc s);
  hex_of_address = λ a. a;
  hex_of_number = λ n. "0";
  print_c_chain = λ d. "{}";
  print_genesis = λ g. ok g.message_text;
}

abbrev rich : AddrAndBalance
rich = record { addr = "x"; balance = 7 }

new_avalanche_go_genesis_lem_example :
    (g : Genesis) × ((new_avalanche_go_genesis library 1337 (rich ∷ []) [] ("one" ∷ "two" ∷ []) 0).0
      ≡ ok g.message_text)
    × IsFor library 1337 (rich ∷ []) ("one" ∷ "two" ∷ []) g
new_avalanche_go_genesis_lem_example =
    new_avalanche_go_genesis_lem library 1337 (rich ∷ []) [] ("one" ∷ "two" ∷ []) 0
      (unfold reserved in refl) refl refl

abbrev pushing : List StreamEvent
pushing = send_done none ∷ got_eof ∷ took_error ∷ joined_sender ∷ send_done none ∷ []

stream_stays_open_example : (run_stream (λ e. false) pushing open_stream).handler ≢ returned none
stream_stays_open_example =
    stream_stays_open (λ e. false) pushing none (λ x. x, (λ x. x, (λ x. x, (λ x. x, (λ x. x, tt)))))

-- The context of the stream is cancelled after the client's end of the stream.
abbrev cancelled : Error
cancelled = message "context canceled"

abbrev ending : List StreamEvent
ending = got_eof ∷ stream_done cancelled ∷ took_error ∷ send_failed ∷ joined_sender ∷ []

ends : (run_stream (λ e. true) ending open_stream).handler ≡ returned (some err_status_canceled)
unfolding run_stream
ends = refl

stream_status_returned_example :
    ((run_stream (λ e. true) ending open_stream).sending ≡ false)
    × ((x : Option Error) × (taken ending none ≡ some x)
        × IsReported (λ e. true) x (some err_status_canceled))
stream_status_returned_example =
    stream_status_returned (λ e. true) ending (some err_status_canceled) ends
