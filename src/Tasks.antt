-- ===== src/Tasks.antt =====
-- Task lists in Markdown: web/src/utils/markdown-manipulation.ts, which toggles one task, and
-- web/src/utils/markdown-task-actions.ts, which sets them all.
pub mod Toggle
pub mod Edits
