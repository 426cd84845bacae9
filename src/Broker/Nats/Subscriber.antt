-- ===== src/Broker/Nats/Subscriber.antt =====
-- pkg/broker/nats/subscriber.go. The mutex makes each piece of Subscribe and Stop between Lock and
-- Unlock one step; they are run here one after the other.
use Prim.Native.String.{◌++◌ as str_append}
use goplatform.Prelude.{
  ℤ, pos, String, Bool, true, false, Option, none, some, List, [], ◌∷◌, ◌++◌, ◌⊎◌, inl, inr, str_eq,
  if◌then◌else◌,
}
use goplatform.Prelude.Dict.{Dict, insert}
use goplatform.Errors.{Error, wrap, failure, text}
use goplatform.Broker.{Bytes, Message, Handler, Middleware, apply_middleware}
use goplatform.Broker.Retry.{Verdict, processed, cancelled, attempts, retry_loop}

-- `natsgo.Msg`, as delivered; its header maps a key to its values.
pub record NatsMsg : Type 0 where
  pub header : Dict (List Bytes)
  pub data_ : Bytes

pub record Subscriber (W Conn Js Sub NatsOpt : Type 0) : Type 0 where
  pub conn : Option Conn
  pub js : Option Js
  pub subs : List Sub
  pub url : String
  pub jet_stream : Bool
  pub durable : String
  pub queue_group : String
  pub middlewares : List (Middleware W)
  pub dlq_publisher : Option (Handler W)  -- its Publish; nil: no DLQ
  pub dlq_topic_suffix : String
  pub max_retries : ℤ
  pub retry_backoff : ℤ
  pub nats_opts : List NatsOpt

-- What is done with a delivered message.
pub data Call : Type 0 where
  handle : Option Error → Call
  dead_letter : Option Error → Call
  ack : Call
  nak : Call

-- What a subscription calls with the subscriber as it then is.
abbrev pub Callback : Type 0 → Type 0 → Type 0
Callback W S = S → NatsMsg → W → W × List Call

-- The calls of nats.go. `wait` is the `select` between the retry timer and `Done()` of the context.
pub record Client (W Conn Js Sub NatsOpt : Type 0) : Type 0 where
  pub default_url : String
  pub connect : String → List NatsOpt → W → W × (Conn ⊎ Error)
  pub jet_stream_of : Conn → W → W × (Js ⊎ Error)
  pub close : Conn → W → W
  pub drain : Conn → W → W × Option Error
  pub drain_sub : Sub → W → W × Option Error
  pub wait_handlers : W → W  -- wg.Wait
  pub js_queue_subscribe :
      Js
      → String
      → String
      → Option String
      → Callback W (Subscriber W Conn Js Sub NatsOpt)
      → W
      → W × (Sub ⊎ Error)
  pub js_subscribe :
      Js
      → String
      → Option String
      → Callback W (Subscriber W Conn Js Sub NatsOpt)
      → W
      → W × (Sub ⊎ Error)
  pub queue_subscribe :
      Conn → String → String → Callback W (Subscriber W Conn Js Sub NatsOpt) → W → W × (Sub ⊎ Error)
  pub core_subscribe :
      Conn → String → Callback W (Subscriber W Conn Js Sub NatsOpt) → W → W × (Sub ⊎ Error)
  pub header_get : Dict (List Bytes) → String → Bytes
  pub acknowledge : NatsMsg → W → W × Option Error
  pub refuse : NatsMsg → W → W × Option Error
  pub wait : ℤ → W → W × Bool

headers_from : Dict (List Bytes) → Dict Bytes → Dict Bytes
headers_from [] m = m
headers_from ((k, []) ∷ hs) m = headers_from hs m
headers_from ((k, v ∷ vs) ∷ hs) m = headers_from hs (insert k v m)

unfoldable pub nats_headers_to_map : Dict (List Bytes) → Dict Bytes
unfolding headers_from
nats_headers_to_map header = headers_from header []

abbrev map_error : (Error → Error) → Option Error → Option Error
map_error f none = none
map_error f (some e) = some (f e)

abbrev SubscriberOption : Type 0 → Type 0
SubscriberOption S = S → S

module _ {W Conn Js Sub NatsOpt : Type 0} where
  unfoldable pub with_subscriber_url : String → SubscriberOption (Subscriber W Conn Js Sub NatsOpt)
  with_subscriber_url url s = record s { url = url }

  unfoldable pub with_subscriber_jet_stream : SubscriberOption (Subscriber W Conn Js Sub NatsOpt)
  with_subscriber_jet_stream s = record s { jet_stream = true }

  unfoldable pub with_durable : String → SubscriberOption (Subscriber W Conn Js Sub NatsOpt)
  with_durable name s = record s { durable = name }

  unfoldable pub with_queue_group : String → SubscriberOption (Subscriber W Conn Js Sub NatsOpt)
  with_queue_group group s = record s { queue_group = group }

  unfoldable pub with_middleware :
      List (Middleware W) → SubscriberOption (Subscriber W Conn Js Sub NatsOpt)
  with_middleware mw s = record s { middlewares = s.middlewares ++ mw }

  unfoldable pub with_dlq : Handler W → String → SubscriberOption (Subscriber W Conn Js Sub NatsOpt)
  with_dlq publisher suffix s = record s {
    dlq_publisher = some publisher;
    dlq_topic_suffix = suffix;
  }

  unfoldable pub with_retry : ℤ → ℤ → SubscriberOption (Subscriber W Conn Js Sub NatsOpt)
  with_retry max_retries backoff s = record s { max_retries = max_retries; retry_backoff = backoff }

  unfoldable pub with_subscriber_nats_options :
      List NatsOpt → SubscriberOption (Subscriber W Conn Js Sub NatsOpt)
  with_subscriber_nats_options opts s = record s { nats_opts = s.nats_opts ++ opts }

  apply_options :
      Subscriber W Conn Js Sub NatsOpt
      → List (SubscriberOption (Subscriber W Conn Js Sub NatsOpt))
      → Subscriber W Conn Js Sub NatsOpt
  apply_options s [] = s
  apply_options s (opt ∷ opts) = apply_options (opt s) opts

module _ {W Conn Js Sub NatsOpt : Type 0} (n : Client W Conn Js Sub NatsOpt) where
  unfoldable pub new_subscriber :
      List (Subscriber W Conn Js Sub NatsOpt → Subscriber W Conn Js Sub NatsOpt)
      → Subscriber W Conn Js Sub NatsOpt
  unfolding apply_options
  new_subscriber opts =
      apply_options
        (record {
          conn = none;
          js = none;
          subs = [];
          url = n.default_url;
          jet_stream = false;
          durable = "";
          queue_group = "";
          middlewares = [];
          dlq_publisher = none;
          dlq_topic_suffix = "";
          max_retries = pos 0;
          retry_backoff = pos 0;
          nats_opts = [];
        })
        opts

  -- After `conn.JetStream()`.
  abbrev pub with_jet_stream :
      Subscriber W Conn Js Sub NatsOpt
      → Conn
      → Js ⊎ Error
      → W
      → Subscriber W Conn Js Sub NatsOpt × W × Option Error
  with_jet_stream s conn (inl js) w = (record s { conn = some conn; js = some js }, w, none)
  with_jet_stream s conn (inr e) w =
      (record s { conn = none }, n.close conn w, some (wrap "nats: subscriber jetstream: %w" [] e))

  -- With a connection.
  abbrev pub open_jet_stream :
      Subscriber W Conn Js Sub NatsOpt
      → Conn
      → Bool
      → W
      → Subscriber W Conn Js Sub NatsOpt × W × Option Error
  open_jet_stream s conn false w = (record s { conn = some conn }, w, none)
  open_jet_stream s conn true w =
      let (w', opened) = n.jet_stream_of conn w in with_jet_stream s conn opened w'

  -- After `natsgo.Connect`.
  abbrev pub with_connection :
      Subscriber W Conn Js Sub NatsOpt
      → Conn ⊎ Error
      → W
      → Subscriber W Conn Js Sub NatsOpt × W × Option Error
  with_connection s (inl conn) w = open_jet_stream s conn s.jet_stream w
  with_connection s (inr e) w = (s, w, some (wrap "nats: subscriber connect: %w" [] e))

  abbrev pub start_from :
      Subscriber W Conn Js Sub NatsOpt
      → Option Conn
      → W
      → Subscriber W Conn Js Sub NatsOpt × W × Option Error
  start_from s (some c) w = (s, w, some (failure "nats: subscriber already started" []))
  start_from s none w =
      let (w', dialed) = n.connect s.url s.nats_opts w in with_connection s dialed w'

  unfoldable pub start :
      Subscriber W Conn Js Sub NatsOpt → W → Subscriber W Conn Js Sub NatsOpt × W × Option Error
  start s w = start_from s s.conn w

  -- The errors of these drains are logged.
  unfoldable pub drain_subs : List Sub → W → W
  drain_subs [] w = w
  drain_subs (sub ∷ subs) w = drain_subs subs (n.drain_sub sub w).0

  abbrev pub stop_from :
      Subscriber W Conn Js Sub NatsOpt
      → Option Conn
      → W
      → Subscriber W Conn Js Sub NatsOpt × W × Option Error
  stop_from s none w = (s, w, none)
  stop_from s (some conn) w =
      let (w', err) = n.drain conn (n.wait_handlers (drain_subs s.subs w)) in
      (
        record s { conn = none; js = none; subs = [] },
        w',
        map_error (λ e. wrap "nats: subscriber drain: %w" [] e) err,
      )

  unfoldable pub stop :
      Subscriber W Conn Js Sub NatsOpt → W → Subscriber W Conn Js Sub NatsOpt × W × Option Error
  unfolding drain_subs
  stop s w = stop_from s s.conn w

  unfoldable pub to_message : String → NatsMsg → Message
  unfolding nats_headers_to_map
  to_message topic msg = record {
    topic = topic;
    key = n.header_get msg.header "key";
    value = msg.data_;
    headers = nats_headers_to_map msg.header;
    partition = pos 0;
    offset = pos 0;
  }

  unfoldable pub dlq_message : Subscriber W Conn Js Sub NatsOpt → String → NatsMsg → Message
  dlq_message s topic msg = record {
    topic = str_append topic s.dlq_topic_suffix;
    key = n.header_get msg.header "key";
    value = msg.data_;
    headers = [];
    partition = pos 0;
    offset = pos 0;
  }

  -- Ack and Nak in JetStream mode; their errors are logged.
  unfoldable pub ack_in : Option Js → NatsMsg → W → W × List Call
  ack_in none msg w = (w, [])
  ack_in (some js) msg w = ((n.acknowledge msg w).0, ack ∷ [])

  unfoldable pub nak_in : Option Js → NatsMsg → W → W × List Call
  nak_in none msg w = (w, [])
  nak_in (some js) msg w = ((n.refuse msg w).0, nak ∷ [])

  -- A message whose last attempt failed.
  unfoldable pub route :
      Subscriber W Conn Js Sub NatsOpt
      → Option (Handler W)
      → Option Js
      → String
      → NatsMsg
      → W
      → W × List Call
  unfolding ack_in nak_in dlq_message
  route s none none topic msg w = ack_in none msg w
  route s none (some js) topic msg w = nak_in (some js) msg w
  route s (some publish) js topic msg w =
      let (w', dlq_err) = publish (dlq_message s topic msg) w in
      elim dlq_err [
        | none ↦ let (w'', calls) = ack_in js msg w' in (w'', dead_letter none ∷ calls)
        | some d ↦ let (w'', calls) = nak_in js msg w' in (w'', dead_letter (some d) ∷ calls)
      ]

  unfoldable pub finish :
      Subscriber W Conn Js Sub NatsOpt → Verdict → String → NatsMsg → W → W × List Call
  unfolding ack_in route
  finish s cancelled topic msg w = (w, [])
  finish s (processed none) topic msg w = ack_in s.js msg w
  finish s (processed (some e)) topic msg w = route s s.dlq_publisher s.js topic msg w

  unfoldable pub process_message :
      Subscriber W Conn Js Sub NatsOpt → NatsMsg → String → Handler W → W → W × List Call
  process_message s msg topic handler w =
      let (w1, calls1, verdict) =
        retry_loop handle (handler (to_message topic msg)) (n.wait s.retry_backoff)
          (attempts s.max_retries) w in
      let (w2, calls2) = finish s verdict topic msg w1 in (w2, calls1 ++ calls2)

  -- msgHandler: a message that comes after Stop is left alone.
  unfoldable pub msg_handler : String → Handler W → Callback W (Subscriber W Conn Js Sub NatsOpt)
  unfolding process_message
  msg_handler topic wrapped s msg w = elim s.conn [
    | none ↦ (w, [])
    | some conn ↦ process_message s msg topic wrapped w
  ]

  -- The subscription that Subscribe asks for.
  unfoldable pub request :
      Subscriber W Conn Js Sub NatsOpt
      → Conn
      → Option Js
      → String
      → Callback W (Subscriber W Conn Js Sub NatsOpt)
      → W
      → W × (Sub ⊎ Error)
  request s conn (some js) topic callback w =
      let durable = if str_eq s.durable "" then none else some s.durable in
      if str_eq s.queue_group ""
      then n.js_subscribe js topic durable callback w
      else n.js_queue_subscribe js topic s.queue_group durable callback w
  request s conn none topic callback w =
      if str_eq s.queue_group ""
      then n.core_subscribe conn topic callback w
      else n.queue_subscribe conn topic s.queue_group callback w

  -- After the request.
  abbrev pub with_subscription :
      Subscriber W Conn Js Sub NatsOpt
      → String
      → Sub ⊎ Error
      → W
      → Subscriber W Conn Js Sub NatsOpt × W × Option Error
  with_subscription s topic (inl sub) w = (record s { subs = s.subs ++ sub ∷ [] }, w, none)
  with_subscription s topic (inr e) w =
      (s, w, some (wrap "nats: subscribe to %q: %w" (text topic ∷ []) e))

  abbrev pub subscribe_from :
      Subscriber W Conn Js Sub NatsOpt
      → Option Conn
      → String
      → Handler W
      → W
      → Subscriber W Conn Js Sub NatsOpt × W × Option Error
  subscribe_from s none topic handler w = (s, w, some (failure "nats: subscriber not started" []))
  subscribe_from s (some conn) topic handler w =
      let callback = msg_handler topic (apply_middleware handler s.middlewares) in
      let (w', got) = request s conn s.js topic callback w in with_subscription s topic got w'

  unfoldable pub subscribe :
      Subscriber W Conn Js Sub NatsOpt
      → String
      → Handler W
      → W
      → Subscriber W Conn Js Sub NatsOpt × W × Option Error
  unfolding request msg_handler
  subscribe s topic handler w = subscribe_from s s.conn topic handler w
