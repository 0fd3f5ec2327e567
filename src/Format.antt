-- ===== src/Format.antt =====
-- src/format: the container's fixed framing.
pub mod Endian
pub mod Buffer
pub mod Preamble
pub mod Record
