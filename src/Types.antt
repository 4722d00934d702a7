-- ===== src/Types.antt =====
-- internal/types: the event schema that all services share, the tenant check and the event HMAC.
pub mod Event
pub mod Tenant
pub mod Hmac
