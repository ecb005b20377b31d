-- ===== src/Modules.antt =====
-- brain-python/modules: command parsing, group policy, the module registry, remote services.
pub mod Command
pub mod Policy
pub mod Echo
pub mod Remote
pub mod Registry
