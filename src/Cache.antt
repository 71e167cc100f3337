-- ===== src/Cache.antt =====
-- The package cache, and the Redis commands that it and the package session use.
mod Tests
pub mod Redis
pub mod Lock
pub mod Connect
pub mod Keys
pub mod Json
pub mod Sample
