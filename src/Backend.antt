-- ===== src/Backend.antt =====
-- The handlers of the server that the dashboard calls: backend/internal/handler.
pub mod Update
mod Tests
