-- ===== src/Model.antt =====
-- internal/model: the records that kubedock keeps and the database that holds them.
pub mod Error
pub mod Label
pub mod Container
pub mod Records
pub mod Database
