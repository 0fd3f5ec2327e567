-- ===== src/Column.antt =====
-- include/shibori/engine/column.hpp and src/column.cpp: buffers, validity bitmaps, and the columns that
-- three builders make of them.
pub mod Buffer
pub mod Bitmap
pub mod Validity
pub mod Storage
pub mod FixedWidth
pub mod Boolean
pub mod VariableWidth
pub mod Building
pub mod Tests
