-- ===== src/Repository.antt =====
-- src/quant_execution/repository: the tables as the service's queries see them.
pub mod Trades
pub mod Rows
pub mod History
pub mod DailyPnl
pub mod PnlHistory
pub mod Writer
