-- ===== src/Converter/Examples.antt =====
-- A varchar column.
