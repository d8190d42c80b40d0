-- ===== src/Ref.antt =====
-- Cell references (lib.go): decimal numbers, column names, and cell names.
pub mod Decimal
pub mod Column
pub mod Cell
