-- ===== src/Access/Policy.antt =====
-- The policy tables of galaxy_ng/app/access_control/statements.
pub mod Shared
pub mod Standalone
pub mod Insights
pub mod Container
pub mod Ansible
pub mod Core
pub mod Roles
