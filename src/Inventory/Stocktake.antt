-- ===== src/Inventory/Stocktake.antt =====
-- src/modules/inventory/stocktake.service.ts: physical counts. `Rows` holds the tables and the reads,
-- `Count` the requests that change a count alone, `Post` the one that turns it into movements; `Closed`,
-- `Lines` and `Settle` prove what they do. Every request is one step: two that overlap are not
-- modelled.
pub mod Rows
pub mod Count
pub mod Post
pub mod Sheet
pub mod Settle
pub mod Requests
pub mod Edits
pub mod Closed
pub mod Lines
