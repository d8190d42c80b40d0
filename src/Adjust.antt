-- ===== src/Adjust.antt =====
-- Insertion and removal of rows and columns: adjust.go, checkSheet (excelize.go), checkRow and the
-- operations on whole rows (rows.go). A direction is Go's bool: true for rows, false for columns.
pub mod Dimensions
pub mod Check
pub mod Links
pub mod Merged
pub mod Filter
pub mod Ops
pub mod Inserted
pub mod InsertedGrid
pub mod MovedDown
