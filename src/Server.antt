-- ===== src/Server.antt =====
-- pkg/server: the error interceptor and the idempotency middleware.
pub mod Http
pub mod ErrorInterceptor
pub mod Idempotency
mod Tests
