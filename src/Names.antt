-- ===== src/Names.antt =====
-- Names and numbers of users and namespaces: galaxy_ng/app/utils/galaxy.py and
-- galaxy_ng/app/utils/namespaces.py.
pub mod Digits
pub mod Uuid
pub mod Namespaces
pub mod Available
mod Examples
