-- ===== src/RoleImport.antt =====
-- galaxy_ng/app/api/v1/tasks.py and galaxy_ng/app/utils/legacy.py: standalone roles and their namespaces.
mod Versions
mod Tags
mod Model
mod Services
mod Destination
mod Import
mod Allowed
mod Providers
mod Bound
mod Kept
mod Examples
mod Samples
