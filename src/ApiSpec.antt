-- ===== src/ApiSpec.antt =====
-- galaxy_ng/app/utils/apispec/id_fix.py: shorter operation ids for an OpenAPI document.
mod Texts
mod Paths
mod Transform
mod Unique
mod Document
mod Bounds
mod Numbering
mod Distinct
mod Words
mod Validate
mod Examples
