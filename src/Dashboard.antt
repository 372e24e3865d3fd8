-- ===== src/Dashboard.antt =====
-- The web dashboard: frontend/src.
pub mod Types
pub mod Api
pub mod BaseUrl
pub mod Health
pub mod NextConfig
pub mod Auth
pub mod Page
pub mod Form
pub mod Loads
pub mod Licenses
pub mod Users
pub mod Variables
pub mod Files
pub mod Resellers
pub mod Logs
pub mod Overview
pub mod Login
pub mod LicenseModal
pub mod Apps
pub mod Webhooks
pub mod Forms
pub mod Tables
pub mod Dialog
pub mod Dialogs
pub mod Docs
pub mod Visit
pub mod Pages
pub mod Navigation
mod Tests
