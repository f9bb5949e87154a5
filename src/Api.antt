-- ===== src/Api.antt =====
-- api/v1alpha1: the custom resources and their methods.
mod Types
mod Helpers
pub use Types.*
unfoldable pub use Helpers.*
