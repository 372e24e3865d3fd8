-- ===== src/Sdk.antt =====
-- The React SDK: sdks/react/src.
pub mod Hwid
pub mod Client
pub mod Provider
pub mod Overlap
pub mod Example
mod Tests
