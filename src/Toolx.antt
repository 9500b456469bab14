-- ===== src/Toolx.antt =====
-- toolx: the tags of a model, and the import of a workbook's rows.
pub mod TagBody
pub mod Import
mod Examples
