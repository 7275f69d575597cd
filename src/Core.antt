-- ===== src/Core.antt =====
-- app/core and app/middleware: transactions, pages of listings, and the limit on requests.
pub mod Transaction
pub mod Pagination
pub mod RateLimit
