-- ===== src/Filters.antt =====
-- The filters of a memo list: web/src/contexts/MemoFilterContext.tsx, which keeps them and the address
-- in step.
pub mod Context
