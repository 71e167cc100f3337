-- ===== src/Casdoor.antt =====
-- The package casdoor: the adapter between the kit's interfaces and a Casdoor server.
mod Tests
pub mod Client
pub mod Settings
pub mod Certificate
pub mod Oauth
pub mod Calls
pub mod Policy
pub mod Identity
pub mod Sample
