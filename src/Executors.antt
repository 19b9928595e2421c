-- ===== src/Executors.antt =====
-- The executor protocol: src/umat/executors/ and src/umat/api/executor_routes.py.
pub mod Request
pub mod Registration
pub mod Workflow
pub mod Expiry
pub mod Claim
pub mod Heartbeat
pub mod Completion
pub mod Sessions
pub mod Profiles
pub mod Custody
pub mod Laws
