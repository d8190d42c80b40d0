-- ===== src/Workbook.antt =====
-- The workbook: the list of its sheets, their names, files and relationships, and the operations
-- on whole sheets (sheet.go, excelize.go, calcchain.go).
pub mod Data
pub mod Names
pub mod Reader
pub mod Lookup
pub mod Active
pub mod Delete
pub mod Create
pub mod Visible
pub mod Trim
pub mod Targets
pub mod Rename
pub mod Open
pub mod Fresh
pub mod Hidden
pub mod RelIds
pub mod Ids
pub mod Invariant
pub mod NewSheet
pub mod Stored
pub mod Formula
