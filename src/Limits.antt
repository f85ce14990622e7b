-- ===== src/Limits.antt =====
-- dapp/request_limitation: the three request limiters.
pub mod Count
pub mod CountThrottling
pub mod Throttling
