-- ===== src/Tests.antt =====
-- Concrete inputs: each theorem with hypotheses at data that meets them, and runs of the code.
mod Sample
mod Backend
mod Syncer
mod Scheduling
mod Identity
mod Manager
mod Registry
mod Encrypted
mod Xds
mod Cookies
mod Authorize
mod Urls
mod Configs
mod Routes
mod Clusters
mod Redis
