-- ===== src/Warmup.antt =====
-- The exercises of warmup/.
pub mod Wc
mod Examples
