-- ===== src/Services.antt =====
-- src/quant_execution/domain/services.py: keys, sizing, schedules, entries, exits, reconciliation.
pub mod Keys
pub mod Sizing
pub mod CloseTime
pub mod Rehydrate
pub mod World
pub mod TradeRows
pub mod CashHolds
pub mod Execution
pub mod Reconciler
pub mod Liquidator
pub mod Shape
