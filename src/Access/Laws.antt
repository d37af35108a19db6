-- ===== src/Access/Laws.antt =====
-- What the conditions of galaxy_ng/app/access_control/access_policy.py guarantee.
pub mod Upload
pub mod Moves
pub mod Owners
