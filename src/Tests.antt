-- ===== src/Tests.antt =====
-- Concrete messages: the tests of the definitions, and examples for the theorems.
pub mod Codec
pub mod Examples
pub mod Network
pub mod Decoding
pub mod Offsets
pub mod NodeIds
pub mod Receive
pub mod Cut
pub mod Footer
pub mod Variants
pub mod Program
