-- ===== src/Core.antt =====
-- nps_sdk/core: the wire primitives that every protocol of the suite shares.
pub mod Frames
pub mod Cache
pub mod Codec
