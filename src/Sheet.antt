-- ===== src/Sheet.antt =====
-- A worksheet in memory (xmlWorksheet.go), and the growth of its grid (sheet.go, excelize.go).
pub mod Data
pub mod Prepare
pub mod Grid
pub mod View
