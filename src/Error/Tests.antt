-- ===== src/Error/Tests.antt =====
-- The bands at some codes.
