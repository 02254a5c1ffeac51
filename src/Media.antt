-- ===== src/Media.antt =====
-- Attachments as the views show them: web/src/utils/attachment.ts web/src/utils/media-item.ts and
-- web/src/components/MemoEditor/types/attachment.ts.
pub mod Types
pub mod Items
pub mod Entries
