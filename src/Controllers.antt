-- ===== src/Controllers.antt =====
-- controllers: the reconcilers and what they share.
pub mod Utils
pub mod Pods
pub mod Claims
pub mod Bindings
pub mod FluentPvcs
