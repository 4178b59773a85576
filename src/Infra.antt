-- ===== src/Infra.antt =====
-- internal/infra: what the other packages stand on.
pub mod LocalBroker
pub mod Orm
pub mod SessionStore
pub mod AuthMiddleware
