-- ===== src/Model.antt =====
-- internal/model: the telemetry point, its validation, its binary member form, and its JSON scanner.
pub mod Point
pub mod Codec
pub mod Order
pub mod Scan
