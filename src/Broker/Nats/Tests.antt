-- ===== src/Broker/Nats/Tests.antt =====
-- The NATS subscriber and publisher over a connection that notes what is asked of it.
use goplatform.Prelude.{ℕ, pos, ◌≡◌, refl, true, false, none, some, List, [], ◌∷◌, inl, inr}
use goplatform.Errors.{Error, sentinel}
use goplatform.Broker.{Message, Handler}
use goplatform.Broker.Retry.{retry_loop, attempts}
use goplatform.Broker.Nats.Subscriber.{
  NatsMsg, Subscriber, Client, handle, nak, start, process_message, finish, route, nak_in,
}
use goplatform.Broker.Nats.Sessions.{IsValid, idle, started, step-IsValid}
use goplatform.Broker.Nats.Publisher.{Publisher, PublishClient}

abbrev World : Type 0
World = List ℕ

abbrev down : Error
down = sentinel "down"

abbrev client : Client World ℕ ℕ ℕ ℕ
client = record {
  default_url = "nats://localhost:4222";
  connect = λ url opts w. (1 ∷ w, inl 7);
  jet_stream_of = λ c w. (2 ∷ w, inr down);
  close = λ c w. 3 ∷ w;
  drain = λ c w. (w, none);
  drain_sub = λ s w. (w, none);
  wait_handlers = λ w. w;
  js_queue_subscribe = λ js topic queue durable callback w. (w, inl 1);
  js_subscribe = λ js topic durable callback w. (w, inl 2);
  queue_subscribe = λ c topic queue callback w. (w, inl 3);
  core_subscribe = λ c topic callback w. (w, inl 4);
  header_get = λ h key. [];
  acknowledge = λ m w. (5 ∷ w, none);
  refuse = λ m w. (6 ∷ w, none);
  wait = λ d w. (w, true);
}

abbrev offline : Subscriber World ℕ ℕ ℕ ℕ
offline = record {
  conn = none;
  js = none;
  subs = [];
  url = "nats://localhost:4222";
  jet_stream = true;
  durable = "";
  queue_group = "";
  middlewares = [];
  dlq_publisher = none;
  dlq_topic_suffix = "";
  max_retries = pos 1;
  retry_backoff = pos 10;
  nats_opts = [];
}

abbrev streaming : Subscriber World ℕ ℕ ℕ ℕ
streaming = record offline { conn = some 7; js = some 8 }

abbrev delivered : NatsMsg
delivered = record { header = []; data_ = 4 ∷ [] }

abbrev failing : Handler World
failing msg w = (9 ∷ w, some down)

returns :
    (process_message client streaming delivered "orders" failing []).1
    ≡ handle (some down) ∷ handle (some down) ∷ nak ∷ []
unfolding process_message retry_loop attempts finish route nak_in
returns = refl

step-IsValid_example : IsValid (start client offline []).0
step-IsValid_example =
    step-IsValid client offline (start client offline []).0 (started []) (idle refl refl refl)

abbrev out_client : PublishClient World ℕ ℕ ℕ
out_client = record {
  default_url = "nats://localhost:4222";
  connect = λ url opts w. (w, inl 7);
  jet_stream_of = λ c w. (w, inl 8);
  close = λ c w. w;
  drain = λ c w. (w, none);
  js_publish_msg = λ js subject m id w. (1 ∷ w, none);
  publish_msg = λ c subject m w. (2 ∷ w, none);
  trace_header = λ w. [];
  header_set = λ h key v. (key, v ∷ []) ∷ h;
}

abbrev sender : Publisher World ℕ ℕ ℕ
sender = record {
  conn = some 7;
  js = none;
  url = "";
  jet_stream = false;
  hooks = [];
  nats_opts = [];
}

abbrev order : Message
order = record {
  topic = "orders";
  key = 1 ∷ [];
  value = 2 ∷ [];
  headers = ("content-type", 3 ∷ []) ∷ [];
  partition = pos 0;
  offset = pos 0;
}
