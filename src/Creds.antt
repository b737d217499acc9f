-- ===== src/Creds.antt =====
-- Services and credentials: src/gp_creds.c.
pub mod Service
pub mod Match
pub mod Admits
pub mod Options
pub mod Lookup
pub mod Format
pub mod Ends
pub mod Pieces
pub mod Numeral
pub mod Formatted
pub mod Check
pub mod Allowed
pub mod Store
pub mod Environment
pub mod Acquire
pub mod Impersonation
pub mod Usable
pub mod Impersonator
pub mod Origin
pub mod Legitimate
pub mod Caches
pub mod Elements
pub mod Segregation
