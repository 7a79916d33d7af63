-- ===== src/Csv.antt =====
-- lib/csv.c: comma separated values, parsed and composed.
pub mod Text
pub mod Parser
pub mod Composer
pub mod Total
pub mod Layout
pub mod Field
pub mod RoundTrip
pub mod TableTrip
mod Tests
