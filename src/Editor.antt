-- ===== src/Editor.antt =====
-- The memo editor: its state and reducer, saving, drafts and the audio recorder.
pub mod State
pub mod Save
pub mod Draft
pub mod Recorder
