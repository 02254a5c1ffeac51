-- ===== src/Memos.antt =====
-- Memos as the client keeps them: the lists that were fetched, and their order.
pub mod Queries
pub mod Sorting
