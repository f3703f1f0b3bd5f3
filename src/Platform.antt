-- ===== src/Platform.antt =====
-- components/platform/src: the devices.
pub mod Bus
pub mod Ram
