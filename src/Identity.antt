-- ===== src/Identity.antt =====
-- internal/identity/manager: keeps sessions, users and the directory in step with the databroker and
-- refreshes them against the identity provider.
pub mod Data
pub mod Keys
pub mod Manager
