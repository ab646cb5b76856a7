-- ===== src/Runner.antt =====
-- worker/internal/runner: the load runner, its statistics and its histogram.
pub mod Histogram
pub mod Stats
pub mod Run
pub mod Tally
pub mod Shards
pub mod Interleaving
pub mod Metrics
pub mod Counts
pub mod Gauge
pub mod Extremes
