-- ===== src/Ingester.antt =====
-- services/telemetry-ingester/main.go: from the Kafka topic to the table benchmark_metrics.
pub mod Payload
pub mod Consumer
pub mod Storage
pub mod Pipeline
pub mod Restart
