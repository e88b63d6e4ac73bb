-- ===== src/Tests/Clamps.antt =====
-- The clamps at concrete counts.
