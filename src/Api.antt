-- ===== src/Api.antt =====
-- crates/zorch-api: the request path of the public routes, the admin routes of keys and prices, and
-- the loading of the providers.
pub mod Headers
pub mod Request
pub mod Body
pub mod Usage
pub mod Auth
pub mod Routing
pub mod Handler
pub mod ApiKeys
pub mod Models
pub mod Loading
pub mod Prices
mod Examples
