-- ===== src/Wire.antt =====
-- The readers and writers of packet fields (puicbase/net/quic/core/quic_data_{reader,writer}.cc).
pub mod Bytes
pub mod Memory
pub mod Ufloat
pub mod Writer
pub mod Reader
pub mod Fields
pub mod SessionId
mod Examples
