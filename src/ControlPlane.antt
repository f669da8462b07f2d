-- ===== src/ControlPlane.antt =====
-- internal/controlplane: what pushes configuration to envoy.
pub mod Routes
pub mod Clusters
pub mod Xds
