-- ===== src/Operator.antt =====
-- The operator: one object service, and the objects that it is made of.
pub mod Spec
pub mod Pki
pub mod Namespace
pub mod Tls
pub mod Workloads
pub mod Reconcile
pub mod Manager
pub mod Settled
pub mod Rotation
pub mod Shapes
pub mod Secrets
pub mod Idle
pub mod Steady
pub mod Keeps
pub mod Frame
pub mod Token
pub mod Again
pub mod Runs
pub mod Defaults
