-- ===== src/Tests.antt =====
-- The theorems at concrete inputs, and runs of the code on small sheets.
mod Ref
mod Merge
mod Value
mod Date
mod Cols
mod Rows
mod Options
mod Validation
mod Adjust
mod Workbook
mod Settings
mod Table
mod Saved
