-- ===== src/Dapp.antt =====
-- dapp: what a DApp is and how it is published, the storages, and the registry of running DApps.
pub mod Data
pub mod Storage
pub mod Registry
pub mod Validator
pub mod Database
pub mod Message
pub mod Modal
