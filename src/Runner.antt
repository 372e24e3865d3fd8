-- ===== src/Runner.antt =====
-- index.js: the script that starts the backend and the frontend side by side.
pub mod Wait
pub mod Env
pub mod Ports
pub mod Log
pub mod Host
pub mod Prepare
pub mod Launch
pub mod Process
pub mod System
mod Tests
