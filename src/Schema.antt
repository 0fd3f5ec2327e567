-- ===== src/Schema.antt =====
-- include/shibori/engine/schema.hpp and src/schema.cpp: fields, schemas and their builders.
pub mod Metadata
pub mod Canonical
pub mod Field
pub mod Builder
pub mod Unique
pub mod Tests
