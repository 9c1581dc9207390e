-- ===== src/Gateway.antt =====
-- crates/zorch-gateway: governance, limits and resilience.
pub mod CircuitBreaker
pub mod SlidingWindow
pub mod AccessWindow
pub mod RateLimit
pub mod Pricing
pub mod Billing
pub mod Middleware
pub mod KeyLimits
pub mod Governance
pub mod Pipeline
