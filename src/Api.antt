-- ===== src/Api.antt =====
-- apps/api/autonomerce/api: limits on requests, and the records of the service.
pub mod RateLimit
pub mod Deals
pub mod Repository
mod Tests
