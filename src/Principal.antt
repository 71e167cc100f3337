-- ===== src/Principal.antt =====
-- principal/principal.go: the authenticated subject and its place in the request context.
pub mod Defs
pub mod Lookup
