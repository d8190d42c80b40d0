-- ===== src/Table.antt =====
-- Filters and tables of a worksheet (table.go).
pub mod Tokens
pub mod Filter
pub mod Words
pub mod Quoted
pub mod Written
pub mod Compared
pub mod Meaning
pub mod Add
pub mod Fuel
