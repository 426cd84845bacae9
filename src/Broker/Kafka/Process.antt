-- ===== src/Broker/Kafka/Process.antt =====
-- processMessage and consumeLoop of pkg/broker/kafka/consumer.go.
use Prim.Native.String.{◌++◌ as str_append}
use goplatform.Prelude.{ℤ, pos, String, Bool, Option, none, some, List, [], ◌∷◌, ◌++◌}
use goplatform.Prelude.Dict.{Dict, insert}
use goplatform.Errors.{Error}
use goplatform.Broker.{Bytes, Message, Handler, apply_middleware}
use goplatform.Broker.Retry.{Verdict, processed, cancelled, attempts, retry_loop}
use goplatform.Broker.Kafka.Config.{Consumer}

pub record Header : Type 0 where
  pub key : String
  pub value : Bytes

-- `kafkago.Message`, as fetched.
pub record FetchedMessage : Type 0 where
  pub partition : ℤ
  pub offset : ℤ
  pub key : Bytes
  pub value : Bytes
  pub headers : List Header

-- `reader.CommitMessages`, and the `select` between the retry timer, set to the backoff, and
-- `msgCtx.Done()`: true where the timer fires.
pub record Reader (W : Type 0) : Type 0 where
  pub commit_messages : FetchedMessage → W → W × Option Error
  pub wait_retry : ℤ → W → W × Bool

headers_from : List Header → Dict Bytes → Dict Bytes
headers_from [] m = m
headers_from (h ∷ hs) m = headers_from hs (insert h.key h.value m)

unfoldable pub kafka_headers_to_map : List Header → Dict Bytes
unfolding headers_from
kafka_headers_to_map headers = headers_from headers []

unfoldable pub to_message : String → FetchedMessage → Message
unfolding kafka_headers_to_map
to_message topic m = record {
  topic = topic;
  key = m.key;
  value = m.value;
  headers = kafka_headers_to_map m.headers;
  partition = m.partition;
  offset = m.offset;
}

-- What is done with a fetched message: the handler or the DLQ publisher is called, the offset is
-- committed.
pub data Call : Type 0 where
  handle : FetchedMessage → Option Error → Call
  dead_letter : FetchedMessage → Option Error → Call
  commit : FetchedMessage → Call

module _ {W : Type 0} (c : Consumer W) (reader : Reader W) (topic : String) where
  unfoldable pub commit_offset : FetchedMessage → W → W × List Call
  commit_offset m w = let (w', err) = reader.commit_messages m w in (w', commit m ∷ [])

  unfoldable pub dlq_message : FetchedMessage → Message
  dlq_message m = record {
    topic = str_append topic c.dlq_topic_suffix;
    key = m.key;
    value = m.value;
    headers = [];
    partition = pos 0;
    offset = pos 0;
  }

  -- DLQ routing and the commit, for a message whose last attempt failed.
  unfoldable pub route : Option (Handler W) → FetchedMessage → W → W × List Call
  unfolding commit_offset dlq_message
  route none m w = commit_offset m w
  route (some publish) m w =
      let (w', dlq_err) = publish (dlq_message m) w in
      elim dlq_err [
        | none ↦ let (w'', calls) = commit_offset m w' in (w'', dead_letter m none ∷ calls)
        | some d ↦ (w', dead_letter m (some d) ∷ [])
      ]

  -- After the loop.
  unfoldable pub finish : Verdict → FetchedMessage → W → W × List Call
  unfolding commit_offset route
  finish cancelled m w = (w, [])
  finish (processed none) m w = commit_offset m w
  finish (processed (some e)) m w = route c.dlq_publisher m w

  unfoldable pub process_message : FetchedMessage → Handler W → W → W × List Call
  process_message m handler w =
      let (w1, calls1, verdict) =
        retry_loop (handle m) (handler (to_message topic m)) (reader.wait_retry c.retry_backoff)
          (attempts c.max_retries) w in
      let (w2, calls2) = finish verdict m w1 in (w2, calls1 ++ calls2)

  -- consumeLoop over the messages that FetchMessage returns before its first error. A handler may
  -- have been cancelled in between; the loop ends when FetchMessage notices.
  unfoldable pub consume_loop : Handler W → List FetchedMessage → W → W × List Call
  consume_loop handler [] w = (w, [])
  consume_loop handler (m ∷ ms) w =
      let (w1, calls1) = process_message m handler w in
      let (w2, calls2) = consume_loop handler ms w1 in (w2, calls1 ++ calls2)

  -- Subscribe: the handler under the middlewares.
  unfoldable pub subscribe : Handler W → List FetchedMessage → W → W × List Call
  subscribe handler = consume_loop (apply_middleware handler c.middlewares)
