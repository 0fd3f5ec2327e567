-- ===== src/Integrity.antt =====
-- include/shibori/engine/integrity.hpp, src/integrity.cpp and src/crc32c_x86.cpp: checksums.
pub mod Crc32c
pub mod Digest
