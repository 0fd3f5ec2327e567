-- ===== src/Block.antt =====
-- include/shibori/engine/block.hpp and src/block.cpp: blocks of columns, checked against a schema.
pub mod Checks
pub mod Builder
pub mod Columns
pub mod Offsets
pub mod Variable
pub mod Values
pub mod Sizes
pub mod Reading
pub mod Decoded
pub mod Limit
pub mod Tests
