-- ===== src/Gormx.antt =====
-- gormx: search tags, query conditions, paging and sorting.
pub mod Tag
pub mod Condition
pub mod Query
pub mod Scope
pub mod Permission
pub mod Cached
mod Examples
