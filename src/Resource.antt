-- ===== src/Resource.antt =====
-- include/shibori/engine/resource.hpp and src/resource.cpp: configured limits.
pub mod Limits
