-- ===== src/Broker/Tests.antt =====
-- The brokers at small runs. The world is a list of numbers.
use goplatform.Prelude.{
  ℕ, pos, ◌≡◌, refl, true, false, none, some, List, [], ◌∷◌, str_eq, if◌then◌else◌, length, leb,
}
use goplatform.Errors.{Error, sentinel}
use goplatform.Broker.{Message, Handler, Middleware, PublishHook, apply_middleware, run_hooks}
use goplatform.Broker.Membroker.{MemBroker, publish, subscribe, and_then, publish-subscribe}
use goplatform.Broker.Kafka.Config.{Consumer}
use goplatform.Broker.Kafka.Process.{
  FetchedMessage, Reader, handle, dead_letter, commit, process_message, consume_loop, finish, route,
}
use goplatform.Broker.Kafka.Safety.{Settles, consume_loop-Settles}
use goplatform.Broker.Kafka.Readers.{
  ReaderOps, Subscriptions, stop, closed_readers, first_error, close_error, stop-closes,
}
use goplatform.Broker.Retry.{retry_loop, attempts}

abbrev World : Type 0
World = List ℕ

abbrev down : Error
down = sentinel "down"

abbrev failing : Handler World
failing msg w = (1 ∷ w, some down)

abbrev accepting : Handler World
accepting msg w = (2 ∷ w, none)

abbrev noting : ℕ → Middleware World
noting n next msg w = next msg (n ∷ w)

abbrev stamping : PublishHook World
stamping msg w = (9 ∷ w, record msg { value = 7 ∷ [] }, none)

abbrev order : Message
order = record {
  topic = "orders";
  key = 1 ∷ [];
  value = 2 ∷ [];
  headers = [];
  partition = pos 0;
  offset = pos 0;
}

abbrev broker : MemBroker World
broker = record {
  handlers = ("orders", accepting ∷ []) ∷ [];
  hooks = stamping ∷ [];
  middlewares = noting 5 ∷ [];
}

publish-subscribe_example : publish (subscribe broker "orders" failing) order [] ≡ (
    if str_eq "orders" "orders"
    then and_then
        (publish broker order [])
        (λ w'. apply_middleware failing (noting 5 ∷ []) (run_hooks (stamping ∷ []) order []).1 w')
    else publish broker order [])
publish-subscribe_example = publish-subscribe broker "orders" failing order []

abbrev consumer : ℕ → Consumer World
consumer k = record {
  brokers = "b:9092" ∷ [];
  group_id = "g";
  middlewares = [];
  dlq_publisher = some failing;
  dlq_topic_suffix = ".dlq";
  max_retries = pos k;
  retry_backoff = pos 10;
  min_bytes = pos 0;
  max_bytes = pos 0;
  max_wait = pos 0;
  commit_interval = pos 0;
  start_offset = pos 0;
  start_offset_set = false;
  heartbeat_interval = pos 0;
  session_timeout = pos 0;
  rebalance_timeout = pos 0;
  partition_watch_interval = pos 0;
}

abbrev reader : Reader World
reader = record { commit_messages = λ m w. (3 ∷ w, none); wait_retry = λ d w. (w, true) }

abbrev fetched : ℕ → FetchedMessage
fetched n = record { partition = pos 0; offset = pos n; key = []; value = n ∷ []; headers = [] }

consume_loop-Settles_example :
    Settles
      (consumer 1)
      reader
      "orders"
      1
      (fetched 0 ∷ fetched 1 ∷ [])
      (consume_loop (consumer 1) reader "orders" failing (fetched 0 ∷ fetched 1 ∷ []) []).1
consume_loop-Settles_example =
    consume_loop-Settles (consumer 1) reader "orders" 1 refl failing (fetched 0 ∷ fetched 1 ∷ []) []

-- The first message is refused by the handler and by the DLQ, and the next one is committed.
abbrev first_fails : Handler World
first_fails msg w = elim w [ [] ↦ (1 ∷ [], some down) | n ∷ ns ↦ (n ∷ ns, none) ]

skips :
    (consume_loop (consumer 0) reader "orders" first_fails (fetched 0 ∷ fetched 1 ∷ []) []).1
    ≡ handle (fetched 0) (some down)
      ∷ dead_letter (fetched 0) (some down)
      ∷ handle (fetched 1) none
      ∷ commit (fetched 1)
      ∷ []
unfolding consume_loop process_message retry_loop attempts finish route
skips = refl

-- Readers that are numbers; those above 5 fail to close.
abbrev kafka_readers : ReaderOps World ℕ ℕ
kafka_readers = record {
  new_reader = λ cfg w. (w, length w);
  with_cancel = λ w. (w, length w);
  spawn = λ r topic h w. 9 ∷ w;
  cancel = λ cn w. w;
  close = λ r w. (r ∷ w, if leb 5 r then some down else none);
  wait = λ w. w;
}

abbrev three_readers : Subscriptions ℕ ℕ
three_readers = record { readers = 2 ∷ 7 ∷ 8 ∷ []; cancels = 2 ∷ 7 ∷ 8 ∷ [] }

stop-closes_example :
    let (w', calls, err) = stop kafka_readers three_readers [] in
    (closed_readers kafka_readers calls ≡ 2 ∷ 7 ∷ 8 ∷ [])
    × (err ≡ close_error (first_error kafka_readers calls))
stop-closes_example = stop-closes kafka_readers three_readers []
