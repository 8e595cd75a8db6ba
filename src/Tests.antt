-- ===== src/Tests.antt =====
-- Concrete runs of the model, and the theorems at concrete inputs.
pub mod ModelRuns
pub mod StoreRuns
pub mod RespRuns
pub mod HttpRuns
pub mod ConfigRuns
pub mod ScanRuns
pub mod MetricsRuns
pub mod AnomalyRuns
pub mod RedisRuns
pub mod LoadRuns
pub mod JsonRuns
pub mod RecentRuns
