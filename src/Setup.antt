-- ===== src/Setup.antt =====
-- What main.go and the SetupWithManager functions ask of controller-runtime's manager.
mod Steps
mod Controllers
mod Main
pub use Steps.*
unfoldable pub use Controllers.*
unfoldable pub use Main.*
