-- ===== src/Access/Conditions.antt =====
-- The conditions of galaxy_ng/app/access_control/access_policy.py.
pub mod Collections
pub mod Repositories
pub mod Containers
pub mod Legacy
