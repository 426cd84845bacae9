-- ===== src/Broker/Kafka.antt =====
-- pkg/broker/kafka/consumer.go: the consumer's configuration and what it does with one message.
-- kafka-go's reader and the timer of a retry are parameters. Logging and tracing only write.
pub mod Config
pub mod Process
pub mod Safety
pub mod Readers
pub mod Producer
