-- ===== src/Workers.antt =====
-- src/quant_execution/workers/executor.py and kafka/consumer.py: the loop that feeds the handlers.
pub mod Consumer
pub mod Executor
pub mod Startup
pub mod Process
pub mod Rehydration
pub mod Shape
pub mod Recovery
