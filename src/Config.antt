-- ===== src/Config.antt =====
-- The configuration files: lib/inc/config/runTime and lib/inc/config/compileTime.
pub mod Text
pub mod Number
pub mod Entry
pub mod Parser
pub mod Access
pub mod Constexpr
pub mod Agreement
pub mod Capacity
pub mod Trimming
pub mod Document
pub mod RoundTrip
pub mod Lookup
pub mod Digits
