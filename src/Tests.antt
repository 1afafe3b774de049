-- ===== src/Tests.antt =====
-- Runs of the definitions and instances of the theorems at concrete inputs.
mod Data
mod Entries
mod Exits
mod Keys
mod Positions
mod Storage
mod Reports
mod Feeds
mod Processes
mod Routes
mod Tables
mod Recovery
mod Rounds
mod Threads
mod Close
mod Environment
