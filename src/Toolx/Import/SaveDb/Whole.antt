-- ===== src/Toolx/Import/SaveDb/Whole.antt =====
-- toolx/excelImport.go SaveDbByName: all of an import with integer ids.
