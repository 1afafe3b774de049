-- ===== src/Clients.antt =====
-- src/quant_execution/clients: the loops of the HTTP clients over what the server answers.
pub mod Retry
pub mod Calls
pub mod Pages
pub mod Notes
