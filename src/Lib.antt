-- ===== src/Lib.antt =====
-- Verification of the core of excelize, a Go library that reads and writes XLSX workbooks: cell
-- references, the grid of cells of a worksheet, cell values, merged areas, columns, rows, dates, the
-- insertion and removal of rows and columns, the workbook with its sheets and relationships, filters,
-- hyperlinks, and the settings of a worksheet.
--
-- How the parts interact. A worksheet (xlsxWorksheet of xmlWorksheet.go) holds rows of cells; every
-- operation names a cell by a text like AK74. The functions of lib.go turn a name into coordinates
-- and back. A setter of cell.go first leads the name to the anchor of its merged area, then grows the
-- grid up to the coordinates (prepareSheetXML of sheet.go), and writes the cell at the index; a
-- getter searches the rows for the name. The two agree because growth keeps the grid well-formed: row
-- i has the number i + 1, and its cell j has the name of column j + 1.
--
-- Representation. Texts are lists of bytes; Go's int is an integer with 64-bit wrap-around written
-- out (Common.Int); a float64 is its pattern of 64 bits, which the modelled code copies and compares
-- with zero; a pointer that may be nil is an Option; a call returns a value, an error, or a panic
-- (Result of Common.Outcome). A Go slice that a loop cuts while it ranges over it is modelled with its
-- backing array (Common.Slices). A worksheet is passed as a value and returned changed; the state that
-- a call leaves behind when it returns an error is not modelled.
--
-- Files.
--   Common      shared names, integers, lists, texts, results, slices
--   Ref         lib.go and errors.go: Ref.Decimal for Itoa and Atoi as the code uses them, Ref.Column
--               for ColumnNameToNumber and ColumnNumberToName, Ref.Cell for SplitCellName,
--               JoinCellName, CellNameToCoordinates and CoordinatesToCellName
--   Sheet       Sheet.Data has the structs, Sheet.Prepare the growth of the grid (sheet.go), Sheet.Grid
--               the invariant, Sheet.View the abstract sheet: a function from coordinates to cells
--   Merge       MergeCell, mergeCellsParser and checkCellInArea of cell.go
--   Value       getters and setters of cell values (cell.go), getValueFrom (rows.go)
--   Cols        the columns of col.go
--   Rows        height, visibility and outline level of rows (rows.go)
--   Adjust      adjust.go, checkSheet of excelize.go, checkRow and the operations on whole rows of
--               rows.go, InsertCol and RemoveCol of col.go, deleteSheetRelationships of picture.go
--   Workbook    sheet.go, excelize.go, calcchain.go: Workbook.Data has the state of a File,
--               Workbook.Names trimSheetName and the paths, Workbook.Reader workSheetReader,
--               Workbook.Lookup GetSheetIndex, GetSheetName and GetSheetMap, Workbook.Active
--               SetActiveSheet, Workbook.Delete DeleteSheet and deleteCalcChain, Workbook.Create
--               NewSheet, SetSheetName and CopySheet, Workbook.Visible SetSheetVisible,
--               Workbook.Formula SetCellFormula of cell.go; the other modules below it have the proofs
--   Saved       workSheetWriter and trimCell of sheet.go, and what checkSheet and checkRow make of the
--               rows that they leave
--   Parts       picture.go: relationships, media, content types, with workSheetRelsReader of sheet.go
--   Links       GetCellHyperLink and SetCellHyperLink of cell.go
--   Views       sheetview.go
--   Settings    SetPanes, SetHeaderFooter, ProtectSheet and the page layout of sheet.go
--   Password    genSheetPasswd of lib.go
--   Table       table.go: Table.Tokens and Table.Filter for AutoFilter, Table.Add for AddTable
--   Date        doTheFliegelAndVanFlandernAlgorithm of date.go
--   Options     sheetpr.go, with defaultTrue of lib.go
--   Validation  datavalidation.go
--   Merged      cellmerged.go
--   Tests       the theorems and the code at concrete inputs
--
-- Sheet names and passwords are lists of runes; the case of letters is changed in ASCII only. A range
-- over a Go map is a loop over an association list, in the order of the list.
--
-- Bounds and fuel. The tokens of a filter expression are found on fuel, the length of the text, since
-- each round reads a byte; 16 digits are enough for a 64-bit number in base 16. ColumnNumberToName is a
-- loop on fuel: the number itself is enough, since it falls in each round. Theorems on coordinates hold
-- up to the largest int, 2^63 - 1, and those on dates up to the day number 2^49.
--
-- Parameters. The number formats of styles.go, the shared strings and the number format of each style
-- are fields of the record Book of Value. What encoding/xml makes of the bytes of a part is the record
-- Parser of Workbook.Data; the marshalling of a worksheet and of a table are arguments of
-- workSheetWriter and AddTable.
--
-- Not modelled: the XML and zip layers with the writers that marshal, styles, charts, pictures, shapes
-- and comments, which are trees of XML; SearchSheet and the readers of rows, which run over an XML
-- decoder; SetSheetBackground, which reads the disk; the JSON formats, which are taken as parsed; and
-- what computes with floats.
pub mod Common
pub mod Ref
pub mod Sheet
pub mod Merge
pub mod Value
pub mod Cols
pub mod Rows
pub mod Adjust
pub mod Workbook
pub mod Saved
pub mod Parts
pub mod Links
pub mod Views
pub mod Password
pub mod Settings
pub mod Table
pub mod Date
pub mod Options
pub mod Validation
pub mod Merged
pub mod Tests
