-- ===== src/Broker/Nats.antt =====
-- pkg/broker/nats: the NATS subscriber and publisher. nats.go's connection, JetStream context and
-- subscriptions are parameters. Logging and tracing only write.
pub mod Subscriber
pub mod Answers
pub mod Sessions
pub mod Publisher
mod Tests
