-- ===== src/Broker/Kafka/Producer.antt =====
-- pkg/broker/kafka/producer.go, and the header carrier of pkg/broker/kafka/propagation.go.
use goplatform.Prelude.{
  String, ◌≡◌, refl, ap, Option, none, some, List, [], ◌∷◌, ◌++◌, inl, inr, arith, str_eq, eq_iff,
  if◌then◌else◌, Option-cases, is_none,
}
use goplatform.Prelude.Dict.{Dict}
use goplatform.Errors.{Error, wrap, failure, text}
use goplatform.Broker.{Bytes, Message, PublishHook, run_hooks}
use goplatform.Broker.Kafka.Process.{Header}

-- `kafkago.Message`, as written.
pub record KafkaMessage : Type 0 where
  pub topic : String
  pub key : Bytes
  pub value : Bytes
  pub headers : List Header

pub record Producer (W : Type 0) : Type 0 where
  pub writer : Option (List String)  -- the writer's addresses, while there is one
  pub brokers : List String
  pub hooks : List (PublishHook W)

-- kafka-go's writer, and the fields that the W3C propagator sets for a context.
pub record WriterOps (W : Type 0) : Type 0 where
  pub write_messages : List String → List KafkaMessage → W → W × Option Error
  pub close : List String → W → W × Option Error
  pub trace_fields : W → Dict Bytes

abbrev pub ProducerOption : Type 0 → Type 0
ProducerOption W = Producer W → Producer W

-- kafkaHeaderCarrier: the first header with the key, "" without one.
unfoldable pub get : String → List Header → Bytes
get key [] = []
get key (h ∷ hs) = if str_eq h.key key then h.value else get key hs

unfoldable pub set : String → Bytes → List Header → List Header
set key value [] = record { key = key; value = value } ∷ []
set key value (h ∷ hs) =
    if str_eq h.key key then record h { value = value } ∷ hs else h ∷ set key value hs

unfoldable pub keys : List Header → List String
keys [] = []
keys (h ∷ hs) = h.key ∷ keys hs

-- What Set stores under a key is what Get returns for it, whatever headers there were; for every
-- other key Get returns what it did before.
pub get-set :
    (key other : String) (value : Bytes) (hs : List Header)
    → get other (set key value hs) ≡ (if str_eq key other then value else get other hs)
unfolding get set
get-set key other value [] = refl
get-set key other value (h ∷ hs) =
    ground
      (arith, eq_iff key other, eq_iff h.key key, eq_iff h.key other, get-set key other value hs)

inject_each : Dict Bytes → List Header → List Header
unfolding set
inject_each [] hs = hs
inject_each ((k, v) ∷ fields) hs = inject_each fields (set k v hs)

map_headers : Dict Bytes → List Header
map_headers [] = []
map_headers ((k, v) ∷ m) = record { key = k; value = v } ∷ map_headers m

abbrev wrapped : String → Option Error → Option Error
wrapped format none = none
wrapped format (some e) = some (wrap format [] e)

module _ {W : Type 0} where
  unfoldable pub with_brokers : List String → ProducerOption W
  with_brokers addrs p = record p { brokers = addrs }

  unfoldable pub with_publish_hook : List (PublishHook W) → ProducerOption W
  with_publish_hook hooks p = record p { hooks = p.hooks ++ hooks }

  apply_options : Producer W → List (ProducerOption W) → Producer W
  apply_options p [] = p
  apply_options p (opt ∷ opts) = apply_options (opt p) opts

  abbrev check_brokers : List String → Producer W → Option (Producer W) × Option Error
  check_brokers [] p =
      (none, some (failure "kafka: producer requires at least one broker address" []))
  check_brokers (b ∷ bs) p = (some p, none)

  unfoldable pub new_producer : List (ProducerOption W) → Option (Producer W) × Option Error
  unfolding apply_options
  new_producer opts =
      let p = apply_options (record { writer = none; brokers = []; hooks = [] }) opts in
      check_brokers p.brokers p

  abbrev start_from : Producer W → Option (List String) → Producer W × Option Error
  start_from p (some wr) = (p, some (failure "kafka: producer already started" []))
  start_from p none = (record p { writer = some p.brokers }, none)

  unfoldable pub start : Producer W → Producer W × Option Error
  start p = start_from p p.writer

module _ {W : Type 0} (ops : WriterOps W) where
  abbrev stop_from : Producer W → Option (List String) → W → Producer W × W × Option Error
  stop_from p none w = (p, w, none)
  stop_from p (some wr) w =
      let (w', err) = ops.close wr w in
      (record p { writer = none }, w', wrapped "kafka: producer close: %w" err)

  unfoldable pub stop : Producer W → W → Producer W × W × Option Error
  stop p w = stop_from p p.writer w

  unfoldable pub inject_trace_context : W → List Header → List Header
  unfolding inject_each
  inject_trace_context w headers = inject_each (ops.trace_fields w) headers

  unfoldable pub to_kafka : Message → W → KafkaMessage
  unfolding inject_trace_context map_headers
  to_kafka msg w = record {
    topic = msg.topic;
    key = msg.key;
    value = msg.value;
    headers = inject_trace_context w (map_headers msg.headers);
  }

  -- Publish with the writer `wr`.
  unfoldable pub publish_to : List (PublishHook W) → List String → Message → W → W × Option Error
  publish_to hooks wr msg w =
      let (w1, msg1, err) = run_hooks hooks msg w in
      elim err [
        | some e ↦ (w1, some (wrap "kafka: publish hook: %w" [] e))
        | none ↦
            let (w2, write_err) = ops.write_messages wr (to_kafka msg1 w1 ∷ []) w1 in
            elim write_err [
              | none ↦ (w2, none)
              | some e ↦ (w2, some (wrap "kafka: publish to %q: %w" (text msg1.topic ∷ []) e))
            ]
      ]

  unfoldable pub publish : Producer W → Message → W → W × Option Error
  unfolding publish_to
  publish p msg w = elim p.writer [
    | none ↦ (w, some (failure "kafka: producer not started" []))
    | some wr ↦ publish_to p.hooks wr msg w
  ]

  -- The loop of PublishBatch: the hooks of each message, up to the first error.
  unfoldable pub prepare :
      List (PublishHook W) → List Message → W → W × List KafkaMessage × Option Error
  prepare hooks [] w = (w, [], none)
  prepare hooks (msg ∷ msgs) w =
      let (w1, msg1, err) = run_hooks hooks msg w in
      let (w2, rest, rest_err) = prepare hooks msgs w1 in
      elim err [
        | some e ↦ (w1, [], some (wrap "kafka: publish hook: %w" [] e))
        | none ↦ (w2, to_kafka msg1 w1 ∷ rest, rest_err)
      ]

  unfoldable pub publish_batch_to :
      List (PublishHook W) → List String → List Message → W → W × Option Error
  publish_batch_to hooks wr msgs w =
      let (w1, kafka_msgs, err) = prepare hooks msgs w in
      elim err [
        | some e ↦ (w1, some e)
        | none ↦
            let (w2, write_err) = ops.write_messages wr kafka_msgs w1 in
            (w2, wrapped "kafka: publish batch: %w" write_err)
      ]

  unfoldable pub publish_batch : Producer W → List Message → W → W × Option Error
  unfolding publish_batch_to
  publish_batch p msgs w = elim p.writer [
    | none ↦ (w, some (failure "kafka: producer not started" []))
    | some wr ↦ publish_batch_to p.hooks wr msgs w
  ]

  prepare-singleton :
      (hooks : List (PublishHook W)) (msg : Message) (w : W)
      → (run_hooks hooks msg w).2 ≡ none
      → let (w1, msg1, err) = run_hooks hooks msg w in
        prepare hooks (msg ∷ []) w ≡ (w1, to_kafka msg1 w1 ∷ [], none)
  unfolding prepare
  prepare-singleton hooks msg w fine = rw (prepare, fine) refl

  prepare-failed :
      (hooks : List (PublishHook W)) (msg : Message) (w : W) (e : Error)
      → (run_hooks hooks msg w).2 ≡ some e
      → prepare hooks (msg ∷ []) w
        ≡ ((run_hooks hooks msg w).0, [], some (wrap "kafka: publish hook: %w" [] e))
  unfolding prepare
  prepare-failed hooks msg w e failed = rw (prepare, failed) refl

  publish_batch_to-singleton :
      (hooks : List (PublishHook W)) (wr : List String) (msg : Message) (w : W)
      → ((publish_batch_to hooks wr (msg ∷ []) w).0 ≡ (publish_to hooks wr msg w).0)
        × (is_none (publish_batch_to hooks wr (msg ∷ []) w).1
            ≡ is_none (publish_to hooks wr msg w).1)
  unfolding publish_batch_to publish_to
  publish_batch_to-singleton hooks wr msg w =
      let (w1, msg1, err) = run_hooks hooks msg w in
      elim (Option-cases (run_hooks hooks msg w).2) [
        | inr (d, failed) ↦
            let e = prepare-failed hooks msg w d failed in
            let ready = ap (λ r. r.2) e in
            let left = ap (λ r. r.0) e in
            rw (publish_batch_to, publish_to, ready, left, failed) (refl, refl)
        | inl fine ↦
            let e = prepare-singleton hooks msg w fine in
            let ready = ap (λ r. r.2) e in
            let made = ap (λ r. r.1) e in
            let left = ap (λ r. r.0) e in
            elim (Option-cases (ops.write_messages wr (to_kafka msg1 w1 ∷ []) w1).1) [
              | inl written ↦
                  rw (publish_batch_to, publish_to, ready, made, left, fine, written) (refl, refl)
              | inr (d, lost) ↦
                  rw (publish_batch_to, publish_to, ready, made, left, fine, lost) (refl, refl)
            ]
      ]

  -- A batch of one message leaves the same world as Publish of that message, if both iterate over its
  -- headers in the same order, and fails exactly when Publish fails.
  pub publish_batch-singleton :
      (p : Producer W) (msg : Message) (w : W)
      → ((publish_batch p (msg ∷ []) w).0 ≡ (publish p msg w).0)
        × (is_none (publish_batch p (msg ∷ []) w).1 ≡ is_none (publish p msg w).1)
  unfolding publish_batch publish
  publish_batch-singleton p msg w = go p.writer
    where
      go :
          (o : Option (List String))
          → let batch : W × Option Error = elim o [
            | none ↦ (w, some (failure "kafka: producer not started" []))
            | some wr ↦ publish_batch_to p.hooks wr (msg ∷ []) w
          ] in
            let one : W × Option Error = elim o [
              | none ↦ (w, some (failure "kafka: producer not started" []))
              | some wr ↦ publish_to p.hooks wr msg w
            ] in
            (batch.0 ≡ one.0) × (is_none batch.1 ≡ is_none one.1)
      go none = (refl, refl)
      go (some wr) = publish_batch_to-singleton p.hooks wr msg w

  -- A stopped producer can be started again, also when closing its writer failed; the new writer
  -- has the producer's addresses.
  pub start-stop :
      (p : Producer W) (w : W) → start (stop p w).0 ≡ (record p { writer = some p.brokers }, none)
  unfolding start stop
  start-stop p w = go p.writer refl
    where
      go :
          (o : Option (List String))
          → p.writer ≡ o
          → (let q = (stop_from p o w).0 in start_from q q.writer)
            ≡ (record p { writer = some p.brokers }, none)
      go none h = rw h refl
      go (some wr) h = refl
