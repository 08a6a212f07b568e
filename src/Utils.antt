-- ===== src/Utils.antt =====
-- Package utils.
pub mod Bytes
pub mod Int
pub mod Hash
pub mod Bitmap
