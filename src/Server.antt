-- ===== src/Server.antt =====
-- internal/server: the API that clients call.
pub mod Filter
pub mod World
pub mod Containers
pub mod Networks
pub mod Create
pub mod Ports
pub mod Inspect
pub mod Libpod
pub mod Execs
pub mod Logs
pub mod Archive
pub mod Images
pub mod VersionAlias
