-- ===== src/Pal.antt =====
-- Cert Generator Pal, the Windows companion: its tables (app/db.py), its policies and names
-- (app/pal.py) and its device API (app/routes/pal.py).
pub mod Tables
pub mod Store
pub mod Json
pub mod Policy
pub mod Names
pub mod Patterns
pub mod Signed
pub mod CodeState
pub mod Issue
pub mod Reported
pub mod Csr
pub mod Held
pub mod Presence
pub mod Requests
pub mod Binds
pub mod Status
