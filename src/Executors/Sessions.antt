-- ===== src/Executors/Sessions.antt =====
-- The routes of the interactive sessions in src/umat/api/executor_routes.py.
pub mod Windows
pub mod Android
