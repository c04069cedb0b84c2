-- ===== src/Util.antt =====
-- internal/util: the helpers without kubernetes in them.
pub mod Tar
pub mod StringId
pub mod IoProxy
pub mod Md2Text
