-- ===== src/Backend.antt =====
-- internal/backend: what kubedock asks of kubernetes.
pub mod Interface
pub mod Names
pub mod Delete
pub mod Deploy
pub mod Services
pub mod Pod
pub mod HostPorts
pub mod Remote
pub mod Logs
pub mod Start
