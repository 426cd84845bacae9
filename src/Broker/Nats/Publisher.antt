-- ===== src/Broker/Nats/Publisher.antt =====
-- pkg/broker/nats/publisher.go.
use goplatform.Prelude.{
  String, ◌≡◌, refl, Bool, true, false, Option, none, some, List, [], ◌∷◌, ◌++◌, ◌⊎◌, inl, inr,
}
use goplatform.Prelude.Dict.{Dict}
use goplatform.Errors.{Error, wrap, failure, text}
use goplatform.Broker.{Bytes, Message, PublishHook, run_hooks}
use goplatform.Broker.Nats.Subscriber.{NatsMsg}

pub record Publisher (W Conn Js NatsOpt : Type 0) : Type 0 where
  pub conn : Option Conn
  pub js : Option Js
  pub url : String
  pub jet_stream : Bool
  pub hooks : List (PublishHook W)
  pub nats_opts : List NatsOpt

-- The calls of nats.go, and the header that the W3C propagator fills for a context.
pub record PublishClient (W Conn Js NatsOpt : Type 0) : Type 0 where
  pub default_url : String
  pub connect : String → List NatsOpt → W → W × (Conn ⊎ Error)
  pub jet_stream_of : Conn → W → W × (Js ⊎ Error)
  pub close : Conn → W → W
  pub drain : Conn → W → W × Option Error
  pub js_publish_msg : Js → String → NatsMsg → Bytes → W → W × Option Error  -- with MsgId
  pub publish_msg : Conn → String → NatsMsg → W → W × Option Error
  pub trace_header : W → Dict (List Bytes)
  pub header_set : Dict (List Bytes) → String → Bytes → Dict (List Bytes)

abbrev pub PublisherOption : Type 0 → Type 0
PublisherOption P = P → P

module _ {W Conn Js NatsOpt : Type 0} where
  unfoldable pub with_url : String → PublisherOption (Publisher W Conn Js NatsOpt)
  with_url url p = record p { url = url }

  unfoldable pub with_jet_stream_mode : PublisherOption (Publisher W Conn Js NatsOpt)
  with_jet_stream_mode p = record p { jet_stream = true }

  unfoldable pub with_publish_hook :
      List (PublishHook W) → PublisherOption (Publisher W Conn Js NatsOpt)
  with_publish_hook hooks p = record p { hooks = p.hooks ++ hooks }

  unfoldable pub with_nats_options : List NatsOpt → PublisherOption (Publisher W Conn Js NatsOpt)
  with_nats_options opts p = record p { nats_opts = p.nats_opts ++ opts }

  apply_options :
      Publisher W Conn Js NatsOpt
      → List (PublisherOption (Publisher W Conn Js NatsOpt))
      → Publisher W Conn Js NatsOpt
  apply_options p [] = p
  apply_options p (opt ∷ opts) = apply_options (opt p) opts

abbrev wrapped : String → Option Error → Option Error
wrapped format none = none
wrapped format (some e) = some (wrap format [] e)

module _ {W Conn Js NatsOpt : Type 0} (n : PublishClient W Conn Js NatsOpt) where
  unfoldable pub new_publisher :
      List (PublisherOption (Publisher W Conn Js NatsOpt)) → Publisher W Conn Js NatsOpt
  unfolding apply_options
  new_publisher opts =
      apply_options
        (record {
          conn = none;
          js = none;
          url = n.default_url;
          jet_stream = false;
          hooks = [];
          nats_opts = [];
        })
        opts

  -- After `conn.JetStream()`.
  abbrev with_jet_stream :
      Publisher W Conn Js NatsOpt
      → Conn
      → Js ⊎ Error
      → W
      → Publisher W Conn Js NatsOpt × W × Option Error
  with_jet_stream p conn (inl js) w = (record p { conn = some conn; js = some js }, w, none)
  with_jet_stream p conn (inr e) w =
      (record p { conn = none }, n.close conn w, some (wrap "nats: publisher jetstream: %w" [] e))

  abbrev open_jet_stream :
      Publisher W Conn Js NatsOpt → Conn → Bool → W → Publisher W Conn Js NatsOpt × W × Option Error
  open_jet_stream p conn false w = (record p { conn = some conn }, w, none)
  open_jet_stream p conn true w =
      let (w', opened) = n.jet_stream_of conn w in with_jet_stream p conn opened w'

  -- After `natsgo.Connect`.
  abbrev with_connection :
      Publisher W Conn Js NatsOpt
      → Conn ⊎ Error
      → W
      → Publisher W Conn Js NatsOpt × W × Option Error
  with_connection p (inl conn) w = open_jet_stream p conn p.jet_stream w
  with_connection p (inr e) w = (p, w, some (wrap "nats: publisher connect: %w" [] e))

  abbrev start_from :
      Publisher W Conn Js NatsOpt → Option Conn → W → Publisher W Conn Js NatsOpt × W × Option Error
  start_from p (some c) w = (p, w, some (failure "nats: publisher already started" []))
  start_from p none w =
      let (w', dialed) = n.connect p.url p.nats_opts w in with_connection p dialed w'

  unfoldable pub start :
      Publisher W Conn Js NatsOpt → W → Publisher W Conn Js NatsOpt × W × Option Error
  start p w = start_from p p.conn w

  abbrev stop_from :
      Publisher W Conn Js NatsOpt → Option Conn → W → Publisher W Conn Js NatsOpt × W × Option Error
  stop_from p none w = (p, w, none)
  stop_from p (some conn) w =
      let (w', err) = n.drain conn w in
      (record p { conn = none; js = none }, w', wrapped "nats: publisher drain: %w" err)

  unfoldable pub stop :
      Publisher W Conn Js NatsOpt → W → Publisher W Conn Js NatsOpt × W × Option Error
  stop p w = stop_from p p.conn w

  -- The message that is sent; its header holds the trace fields and the key.
  unfoldable pub to_nats : Message → W → NatsMsg
  to_nats msg w = record {
    header = n.header_set (n.trace_header w) "key" msg.key;
    data_ = msg.value;
  }

  abbrev send : Conn → Option Js → Message → NatsMsg → W → W × Option Error
  send conn (some js) msg out w =
      let (w', err) = n.js_publish_msg js msg.topic out msg.key w in
      elim err [
        | none ↦ (w', none)
        | some e ↦ (w', some (wrap "nats: jetstream publish to %q: %w" (text msg.topic ∷ []) e))
      ]
  send conn none msg out w =
      let (w', err) = n.publish_msg conn msg.topic out w in
      elim err [
        | none ↦ (w', none)
        | some e ↦ (w', some (wrap "nats: publish to %q: %w" (text msg.topic ∷ []) e))
      ]

  -- Publish over a connection.
  unfoldable pub publish_to :
      List (PublishHook W) → Conn → Option Js → Message → W → W × Option Error
  unfolding to_nats
  publish_to hooks conn js msg w =
      let (w1, msg1, err) = run_hooks hooks msg w in
      elim err [
        | some e ↦ (w1, some (wrap "nats: publish hook: %w" [] e))
        | none ↦ send conn js msg1 (to_nats msg1 w1) w1
      ]

  abbrev publish_from : Publisher W Conn Js NatsOpt → Option Conn → Message → W → W × Option Error
  publish_from p none msg w = (w, some (failure "nats: publisher not started" []))
  publish_from p (some conn) msg w = publish_to p.hooks conn p.js msg w

  unfoldable pub publish : Publisher W Conn Js NatsOpt → Message → W → W × Option Error
  unfolding publish_to
  publish p msg w = publish_from p p.conn msg w

  unfoldable pub publish_batch : Publisher W Conn Js NatsOpt → List Message → W → W × Option Error
  unfolding publish
  publish_batch p [] w = (w, none)
  publish_batch p (msg ∷ msgs) w =
      let (w', err) = publish p msg w in
      elim err [ none ↦ publish_batch p msgs w' | some e ↦ (w', some e) ]

  publish_from-headers :
      (p : Publisher W Conn Js NatsOpt) (o : Option Conn) (js : Option Js) (msg : Message)
      (headers : Dict Bytes) (w : W)
      → p.hooks ≡ []
      → p.js ≡ js
      → publish_from p o (record msg { headers = headers }) w ≡ publish_from p o msg w
  unfolding publish_to to_nats run_hooks
  publish_from-headers p none js msg headers w plain mode = refl
  publish_from-headers p (some conn) none msg headers w plain mode = rw (plain, mode) refl
  publish_from-headers p (some conn) (some js) msg headers w plain mode = rw (plain, mode) refl

  -- Without hooks, Publish does the same whatever the headers of the message are: they are not
  -- sent.
  pub publish_drops_headers :
      (p : Publisher W Conn Js NatsOpt) (msg : Message) (headers : Dict Bytes) (w : W)
      → p.hooks ≡ []
      → publish p (record msg { headers = headers }) w ≡ publish p msg w
  unfolding publish
  publish_drops_headers p msg headers w plain =
      publish_from-headers p p.conn p.js msg headers w plain refl
