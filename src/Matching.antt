-- ===== src/Matching.antt =====
-- src/quant_execution/domain/matching.py: the watchlist store and the daily refresher.
-- `datetime.now` is an argument; the fetcher is the answer that it gives, `none` where it raises.
pub mod Store
pub mod Snapshot
pub mod Refresher
