-- ===== src/Lifecycle.antt =====
-- The life of a binding, as the conditions tell it.
pub mod Flags
pub mod Settings
pub mod Steps
pub mod Rules
pub mod Saves
pub mod Decisions
pub mod Fulfilments
pub mod Identities
pub mod Histories
pub mod Passes
pub mod Phases
pub mod Latest
pub mod Deletions
pub mod Completions
pub mod Progress
pub mod Finishing
pub mod Endings
