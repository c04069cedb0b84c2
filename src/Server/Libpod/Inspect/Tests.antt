-- ===== src/Server/Libpod/Inspect/Tests.antt =====
-- The details of a container that runs, in both APIs.
use kubedock.Server.Inspect
