-- ===== src/Kube.antt =====
-- The Kubernetes objects that the operator reads and writes, and what it takes from the libraries
-- of Kubernetes: the fields that the operator's code names, and one field for what it only copies.
mod Meta
mod Core
mod Errors
mod Libraries
unfoldable pub use Meta.*
pub use Core.*
pub use Errors.*
unfoldable pub use Libraries.*
