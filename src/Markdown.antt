-- ===== src/Markdown.antt =====
-- Markdown: the lexers of tags and mentions, task lists, list continuation.
pub mod Mentions
pub mod Tags
