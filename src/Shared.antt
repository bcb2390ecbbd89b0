-- ===== src/Shared.antt =====
-- shared/: what the compiler and the host both use.
pub mod StaticType
