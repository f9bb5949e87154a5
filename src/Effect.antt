-- ===== src/Effect.antt =====
-- Calls of the API server and of the clock as an effect. A program asks a call and goes on with
-- its response. An environment answers the n-th call of a run as it likes, so that a theorem about
-- every environment covers every state of the cluster and every change between two calls.
mod Calls
mod Runs
pub use Calls.*
unfoldable pub use Runs.*
