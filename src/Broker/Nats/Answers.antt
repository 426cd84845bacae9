-- ===== src/Broker/Nats/Answers.antt =====
-- What the subscriber of pkg/broker/nats/subscriber.go answers to a message.
use goplatform.Prelude.{ℕ, suc, ◌≤◌, ◌≡◌, Option, none, some, List, [], ◌∷◌, ◌++◌, map, length}
use goplatform.Errors.{Error}
use goplatform.Broker.Nats.Subscriber.{Subscriber, Call, handle, dead_letter, ack, nak}

-- Handler calls that all failed.
abbrev pub failures : List Error → List Call
failures errs = map (λ e. handle (some e)) errs

-- An answer is given in JetStream mode only.
abbrev pub answer : {Js : Type 0} → Option Js → Call → List Call
answer none call = []
answer (some js) call = call ∷ []

-- What is done with one message by a subscriber that retries `k` times.
pub data Answered {W Conn Js Sub NatsOpt : Type 0} (s : Subscriber W Conn Js Sub NatsOpt) (k : ℕ)
    (calls : List Call) : Type 0 where
  by_handler :
      (errs : List Error)
      → length errs ≤ k
      → calls ≡ failures errs ++ handle none ∷ answer s.js ack
      → Answered s k calls
  by_dlq :
      (errs : List Error)
      → length errs ≡ suc k
      → calls ≡ failures errs ++ dead_letter none ∷ answer s.js ack
      → Answered s k calls
  refused :
      (errs : List Error) (d : Error)
      → length errs ≡ suc k
      → calls ≡ failures errs ++ dead_letter (some d) ∷ answer s.js nak
      → Answered s k calls
  returned :
      (errs : List Error)
      → length errs ≡ suc k
      → s.dlq_publisher ≡ none
      → calls ≡ failures errs ++ answer s.js nak
      → Answered s k calls
  interrupted :
      (errs : List Error)
      → 1 ≤ length errs
      → length errs ≤ k
      → calls ≡ failures errs
      → Answered s k calls
