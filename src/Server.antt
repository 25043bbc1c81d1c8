-- ===== src/Server.antt =====
-- internal/server: the middlewares of the upload route, the handler, the route that composes them,
-- and the set-up of back pressure and WAL.
pub mod Context
pub mod Middleware
pub mod Upload
pub mod Route
pub mod Setup
pub mod Delivery
