-- ===== src/Providers.antt =====
-- crates/zorch-providers: upstream requests, their retries and the failover between keys.
pub mod Errors
pub mod HttpClient
pub mod AuthHeaders
pub mod Proxy
pub mod Registry
pub mod ModelResolver
