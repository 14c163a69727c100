-- ===== src/Perfpayload.antt =====
-- perfpayload: uploads of performance samples.
pub mod Watermark
pub mod Encode
