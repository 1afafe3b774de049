-- ===== src/Domain.antt =====
-- The data of the program: src/quant_execution/domain/enums.py and schemas.py, the trade row of
-- src/quant_execution/repository/models.py, and the messages that the parts exchange.
pub mod Enums
pub mod Decimal
pub mod Records
pub mod Schemas
pub mod Clock
