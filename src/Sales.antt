-- ===== src/Sales.antt =====
-- apps/api/autonomerce/sales: the sales agent.
pub mod Negotiation
