-- ===== src/Middleware.antt =====
-- internal/middleware.
pub mod RateLimit
pub mod Budget
pub mod Covered
pub mod Limiter
pub mod Wire
pub mod Chain
pub mod Marked
pub mod Hardened
pub mod Outcomes
