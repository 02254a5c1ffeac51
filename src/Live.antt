-- ===== src/Live.antt =====
-- Live updates: `useLiveMemoRefresh` of web/src/hooks/useLiveMemoRefresh.ts, which reads events of
-- the server from a stream and connects again when the stream ends.
pub mod Stream
pub mod Events
pub mod Connection
