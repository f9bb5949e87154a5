-- ===== src/Controllers/Bindings.antt =====
-- controllers/fluentpvcbinding_controller.go: the reconciler of bindings.
mod Updates
mod Fulfilment
mod Jobs
mod Decision
mod Reconcile
mod Watcher
unfoldable pub use Updates.*
unfoldable pub use Fulfilment.*
unfoldable pub use Jobs.*
unfoldable pub use Decision.*
unfoldable pub use Reconcile.*
unfoldable pub use Watcher.*
