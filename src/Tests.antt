-- ===== src/Tests.antt =====
-- Examples: the theorems at concrete inputs.
mod Data
mod Streams
mod Calls
mod Nodes
mod Clients
mod Storages
mod Systems
mod Generators
mod Servers
mod Benchmarks
