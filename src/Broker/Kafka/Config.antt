-- ===== src/Broker/Kafka/Config.antt =====
-- The options of pkg/broker/kafka/consumer.go, and the reader configuration of Subscribe.
use goplatform.Prelude.{
  ℤ, pos, String, Bool, true, false, Option, none, some, List, [], ◌∷◌, ◌++◌, ltb_ℤ, if◌then◌else◌,
}
use goplatform.Errors.{Error, failure}
use goplatform.Broker.{Middleware, Handler}

pub record Consumer (W : Type 0) : Type 0 where
  pub brokers : List String
  pub group_id : String
  pub middlewares : List (Middleware W)
  pub dlq_publisher : Option (Handler W)  -- its Publish; nil: no DLQ
  pub dlq_topic_suffix : String
  pub max_retries : ℤ
  pub retry_backoff : ℤ
  pub min_bytes : ℤ
  pub max_bytes : ℤ
  pub max_wait : ℤ
  pub commit_interval : ℤ
  pub start_offset : ℤ
  pub start_offset_set : Bool
  pub heartbeat_interval : ℤ
  pub session_timeout : ℤ
  pub rebalance_timeout : ℤ
  pub partition_watch_interval : ℤ

abbrev pub ConsumerOption : Type 0 → Type 0
ConsumerOption W = Consumer W → Consumer W

module _ {W : Type 0} where
  unfoldable pub with_consumer_brokers : List String → ConsumerOption W
  with_consumer_brokers addrs c = record c { brokers = addrs }

  unfoldable pub with_group_id : String → ConsumerOption W
  with_group_id id c = record c { group_id = id }

  unfoldable pub with_middleware : List (Middleware W) → ConsumerOption W
  with_middleware mw c = record c { middlewares = c.middlewares ++ mw }

  unfoldable pub with_dlq : Handler W → String → ConsumerOption W
  with_dlq publisher topic_suffix c = record c {
    dlq_publisher = some publisher;
    dlq_topic_suffix = topic_suffix;
  }

  unfoldable pub with_retry : ℤ → ℤ → ConsumerOption W
  with_retry max_retries backoff c = record c { max_retries = max_retries; retry_backoff = backoff }

  unfoldable pub with_min_bytes : ℤ → ConsumerOption W
  with_min_bytes n c = record c { min_bytes = n }

  unfoldable pub with_max_bytes : ℤ → ConsumerOption W
  with_max_bytes n c = record c { max_bytes = n }

  unfoldable pub with_max_wait : ℤ → ConsumerOption W
  with_max_wait d c = record c { max_wait = d }

  unfoldable pub with_commit_interval : ℤ → ConsumerOption W
  with_commit_interval d c = record c { commit_interval = d }

  unfoldable pub with_start_offset : ℤ → ConsumerOption W
  with_start_offset offset c = record c { start_offset = offset; start_offset_set = true }

  unfoldable pub with_heartbeat_interval : ℤ → ConsumerOption W
  with_heartbeat_interval d c = record c { heartbeat_interval = d }

  unfoldable pub with_session_timeout : ℤ → ConsumerOption W
  with_session_timeout d c = record c { session_timeout = d }

  unfoldable pub with_rebalance_timeout : ℤ → ConsumerOption W
  with_rebalance_timeout d c = record c { rebalance_timeout = d }

  unfoldable pub with_partition_watch_interval : ℤ → ConsumerOption W
  with_partition_watch_interval d c = record c { partition_watch_interval = d }

  zero_consumer : Consumer W
  zero_consumer = record {
    brokers = [];
    group_id = "";
    middlewares = [];
    dlq_publisher = none;
    dlq_topic_suffix = "";
    max_retries = pos 0;
    retry_backoff = pos 0;
    min_bytes = pos 0;
    max_bytes = pos 0;
    max_wait = pos 0;
    commit_interval = pos 0;
    start_offset = pos 0;
    start_offset_set = false;
    heartbeat_interval = pos 0;
    session_timeout = pos 0;
    rebalance_timeout = pos 0;
    partition_watch_interval = pos 0;
  }

  apply_options : Consumer W → List (ConsumerOption W) → Consumer W
  apply_options c [] = c
  apply_options c (opt ∷ opts) = apply_options (opt c) opts

  abbrev check_brokers : List String → Consumer W → Option (Consumer W) × Option Error
  check_brokers [] c =
      (none, some (failure "kafka: consumer requires at least one broker address" []))
  check_brokers (b ∷ bs) c = (some c, none)

  -- Returns the consumer or the error.
  unfoldable pub new_consumer : List (ConsumerOption W) → Option (Consumer W) × Option Error
  unfolding zero_consumer apply_options
  new_consumer opts = let c = apply_options zero_consumer opts in check_brokers c.brokers c

-- `kafkago.ReaderConfig`: `none` leaves kafka-go's default.
pub record ReaderConfig : Type 0 where
  pub brokers : List String
  pub topic : String
  pub group_id : String
  pub min_bytes : Option ℤ
  pub max_bytes : Option ℤ
  pub max_wait : Option ℤ
  pub commit_interval : Option ℤ
  pub start_offset : Option ℤ
  pub heartbeat_interval : Option ℤ
  pub session_timeout : Option ℤ
  pub rebalance_timeout : Option ℤ
  pub partition_watch_interval : Option ℤ

abbrev if_positive : ℤ → Option ℤ
if_positive n = if ltb_ℤ (pos 0) n then some n else none

-- The configuration that Subscribe builds.
unfoldable pub reader_config : {W : Type 0} → Consumer W → String → ReaderConfig
reader_config c topic = record {
  brokers = c.brokers;
  topic = topic;
  group_id = c.group_id;
  min_bytes = if_positive c.min_bytes;
  max_bytes = if_positive c.max_bytes;
  max_wait = if_positive c.max_wait;
  commit_interval = if_positive c.commit_interval;
  start_offset = if c.start_offset_set then some c.start_offset else none;
  heartbeat_interval = if_positive c.heartbeat_interval;
  session_timeout = if_positive c.session_timeout;
  rebalance_timeout = if_positive c.rebalance_timeout;
  partition_watch_interval = if_positive c.partition_watch_interval;
}
