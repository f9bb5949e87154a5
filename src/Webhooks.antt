-- ===== src/Webhooks.antt =====
-- webhooks: the admission handlers.
pub mod Admission
pub mod PodMutator
pub mod FluentPvcValidator
pub mod PodValidator
