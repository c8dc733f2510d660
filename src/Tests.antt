-- ===== src/Tests.antt =====
-- Concrete runs: test data, and the theorems at concrete inputs.
mod Fixtures
mod Store
mod Access
mod Cluster
mod Servers
mod Cosi
mod Codec
mod Operator
mod Objectd
mod Boot
mod Isolation
mod Delivery
mod Driver
