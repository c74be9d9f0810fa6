-- ===== src/Metrics.antt =====
-- clientlibrary/metrics: what a worker reports of its shards. The clients of the monitoring
-- backends and Go's float64 are parameters.
pub mod Float
pub mod Service
pub mod CloudWatch
pub mod PrometheusClient
pub mod Prometheus
