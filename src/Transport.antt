-- ===== src/Transport.antt =====
-- internal/httptransport: the HTTP boundary.
pub mod Response
pub mod Filter
pub mod Writer
pub mod Handler
pub mod Caching
pub mod Files
pub mod Accounts
pub mod Documents
pub mod Routing
pub mod Serving
