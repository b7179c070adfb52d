-- ===== src/Mysql/Rows.antt =====
-- mysql/decode/events/types/E_ROWS_EVENT.go: the decimals, the column values, the rows, the rows
-- event with its compensation, and what is shown of each.
pub mod Decimal
pub mod Value
pub mod Row
pub mod Event
pub mod Reverse
pub mod Bounds
pub mod Shape
pub mod Loop
pub mod Undo
pub mod Images
pub mod Changes
pub mod Safe
pub mod Integers
