-- ===== src/Access.antt =====
-- Access control: galaxy_ng/app/access_control.
pub mod Statement
pub mod Policy
pub mod Engine
pub mod Policies
pub mod Entitlement
pub mod Surface
pub mod LockedRoles
pub mod RoleTotal
pub mod Model
pub mod Conditions
pub mod Laws
pub mod Selection
mod Examples
mod Samples
