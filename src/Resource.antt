-- ===== src/Resource.antt =====
-- internal/resource/domain/model: the resolution of a scope and the life of a batch job.
pub mod Scope
pub mod Job
