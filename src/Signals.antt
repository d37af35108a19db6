-- ===== src/Signals.antt =====
-- The signals that keep the roles of pulp and of DAB alike: galaxy_ng/app/signals/handlers.py.
pub mod Model
pub mod Permissions
pub mod Roles
pub mod Assignments
pub mod Dispatch
pub mod Copying
mod Examples
