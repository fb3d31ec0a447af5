-- ===== src/Resolve/Exchange/Examples.antt =====
-- internal/resolve/pool.go: two calls of `exchange` that get the same ID, one after the other.
use www_scanner.Prelude.{ℕ, ◌≡◌, ◌≢◌, refl, List, [], ◌∷◌, none, some, false, ok, err, text}
use www_scanner.Resolve.Messages.{Msg, Question, type_a}
use www_scanner.Resolve.Sockets.{register, deliver, unregister}
use www_scanner.Resolve.Exchange.{
  Socket, idle, sending, waiting, leaving, returned, reading, handing, update, waiter_of, call,
  read, here, later, Run, registers, sends, receives, gives_up, reads, hands, fresh, timed_out,
}
use www_scanner.Resolve.Exchange.Invariant.{IsSound, run-IsSound, hands-buffered}
use www_scanner.Resolve.Sockets.{answers_question}
use www_scanner.Resolve.Exchange.Delivered.{after_response, response-arrives}
use www_scanner.Resolve.Exchange.Starved.{after_unregister, unregister-starves}

abbrev question : Question
question = record { q_name = text "a."; q_type = type_a }

abbrev asks : ℕ → List Question
asks k = question ∷ []

abbrev response : Msg
response = record {
  id = 7;
  rcode = 0;
  truncated = false;
  questions = question ∷ [];
  answers = [];
  authority = [];
}

-- the first call is sent, and its response is read
abbrev answered : Socket
answered = record {
  conn = record { inflight = []; closed = false };
  channels = λ _. none;
  callers = update (update (λ _. idle) 0 (sending 7)) 0 (waiting 7);
  reader = handing 0 response;
}

answered_run : Run asks fresh answered
unfolding register deliver text
answered_run =
    later (later (later here (call 0 (registers (λ _. 7) refl refl))) (call 0 sends))
      (read (reads response))

-- the first call has its response, and the second is sent with the same ID
abbrev overtaken : Socket
overtaken = record {
  conn = record { inflight = (7, waiter_of 1 question) ∷ []; closed = false };
  channels = update (update (λ _. none) 0 (some response)) 0 none;
  callers =
      update (update (update answered.callers 0 (leaving 7 (ok response))) 1 (sending 7)) 1
        (waiting 7);
  reader = reading;
}

overtaken_run : Run asks fresh overtaken
unfolding register
overtaken_run =
    later
      (later (later (later answered_run (read hands)) (call 0 (receives refl)))
        (call 1 (registers (λ _. 7) refl refl)))
      (call 1 sends)

-- the response of the second call arrives, and it times out all the same
abbrev starved : Socket
starved = record {
  conn = record { inflight = []; closed = false };
  channels = overtaken.channels;
  callers =
      update (update overtaken.callers 0 (returned (ok response))) 1 (leaving 7 (err timed_out));
  reader = reading;
}

starved_run : Run asks (after_unregister asks overtaken 0 7 (ok response)) starved
unfolding unregister deliver
starved_run = later (later here (read (reads response))) (call 1 (gives_up timed_out))

unregister-starves_example :
    (starved.callers 1 ≢ leaving 7 (ok response)) × (starved.callers 1 ≢ returned (ok response))
unregister-starves_example =
    unregister-starves asks 0 1 7 question (ok response) response overtaken_run refl refl refl
      starved_run

run-IsSound_example : IsSound asks overtaken
run-IsSound_example = run-IsSound asks overtaken_run

hands-buffered_example : answered.channels 0 ≡ none
hands-buffered_example = hands-buffered asks 0 response answered_run refl

-- a call that waits for its response
abbrev sent : Socket
sent = record {
  conn = record { inflight = (7, waiter_of 0 question) ∷ []; closed = false };
  channels = λ _. none;
  callers = update (update (λ _. idle) 0 (sending 7)) 0 (waiting 7);
  reader = reading;
}

sent_run : Run asks fresh sent
unfolding register
sent_run = later (later here (call 0 (registers (λ _. 7) refl refl))) (call 0 sends)

response-arrives_example : Run asks sent (after_response asks sent 0 7 response)
unfolding answers_question text
response-arrives_example =
    response-arrives asks 0 7 question response sent_run refl refl refl refl refl
