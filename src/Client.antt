-- ===== src/Client.antt =====
-- The clients: src/client/rdma_client.cpp and src/client/main.cpp.
pub mod Buffers
pub mod Interactive
pub mod TwoSided
pub mod Benchmark
pub mod Tcp
