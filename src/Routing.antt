-- ===== src/Routing.antt =====
-- crates/core/src/routing: rules that choose a route for a connection.
pub mod Domain
pub mod Rule
