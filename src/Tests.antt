-- ===== src/Tests.antt =====
-- Runs of the model at inputs that are easy to follow in the source, and the theorems at concrete inputs.
pub mod Protocol
pub mod Stores
pub mod Sessions
pub mod Shared
pub mod Network
pub mod OneSided
pub mod Card
pub mod Clients
pub mod Benchmarks
pub mod Csv
pub mod Statistics
pub mod Sampling
pub mod System
pub mod Rdma
pub mod Arguments
pub mod EndToEnd
