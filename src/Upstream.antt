-- ===== src/Upstream.antt =====
-- galaxy_ng/app/utils/galaxy.py: the reading of collections and roles from another galaxy.
mod Run
pub mod Fetch
mod Owners
mod Namespaces
mod Roles
mod Collections
mod Tries
mod Paging
mod Stuck
mod Examples
