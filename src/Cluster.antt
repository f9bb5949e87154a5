-- ===== src/Cluster.antt =====
-- The operator as a whole: the handlers of controllers and webhooks as processes over one server.
pub mod Contracts
pub mod Duties
pub mod Bindings
pub mod Claims
pub mod Others
pub mod Admissions
pub mod Server
pub mod Processes
pub mod Versions
pub mod Invariant
pub mod Care
pub mod Safety
pub mod Consequences
pub mod Custody
pub mod Evidence
pub mod Honesty
pub mod Jobs
pub mod Success
pub mod Finishing
