-- ===== src/Security.antt =====
-- app/security.py: attempt limiting, rate limiting, authenticator codes and the cross-site check.
pub mod AttemptLimiter
pub mod RateLimiter
pub mod Totp
pub mod CrossSite
