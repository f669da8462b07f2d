-- ===== src/Authorize.antt =====
-- authorize: the service that decides about each request.
pub mod Store
pub mod Evaluator
pub mod Check
pub mod Requests
