-- ===== src/Tests.antt =====
-- Runs on small inputs, and each result at an input that meets its conditions.
pub mod Lists
mod Cache
mod Maps
mod Storage
mod Simple
mod MultiVolume
mod Migration
mod Retention
mod Slices
mod Tenants
mod Volume
mod Operations
mod Version
