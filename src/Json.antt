-- ===== src/Json.antt =====
-- lib/json.c: JSON values.
pub mod Dictionary
pub mod Syntax
pub mod Access
pub mod Arrays
pub mod Fields
pub mod Sizes
pub mod Parser
pub mod Composer
pub mod Layout
pub mod Numbers
pub mod ComposeText
pub mod Quoting
pub mod Extend
pub mod RoundTrip
pub mod ValueTrip
pub mod Total
pub mod Equal
pub mod EqualLaws
pub mod SetMinus
pub mod SetMinusLaws
pub mod Tests
