-- ===== src/Health.antt =====
-- plugins/agl_health: the metrics of agl-health-daemon over RPC. `Json` is the interface to the JSON
-- library, `Metrics` the structs, `Fill` the reading of JSON into them, `Handlers` the server's side
-- and `Client` the client's.
pub mod Answers
pub mod Ranges
pub mod Snapshot
pub mod Fetching
pub mod Delivery
pub mod Arrays
pub mod Report
pub mod Documented
pub mod Flat
pub mod Json
pub mod Metrics
pub mod Fill
pub mod Handlers
pub mod Client
