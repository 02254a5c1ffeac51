-- ===== src/Lib.antt =====
-- The web client of memos, the note-taking application: the part of web/src that keeps a user signed
-- in, reads Markdown, and edits and saves memos. Paths are from the root of the repository.
--
-- The parts and their files.
--   Common holds the shared helpers: texts as lists of character codes, tests on native numbers,
--     lists, options.
--   Api has the messages of the service, web/src/types/proto/api/v1.
--   Markdown.Tags and Markdown.Mentions model web/src/utils/remark-plugins/remark-tag.ts and
--     remark-mention.ts (the renderer) and the tokenizers of
--     web/src/components/MemoEditor/Editor/Tag.ts, Mention.ts and tagMarkdown.ts (the editor), which
--     share web/src/utils/tag-grammar.ts and mention-grammar.ts. `next_segment` is one round of a
--     loop of the renderer, `parse_from` the loop, `parse_segments` and `parse_mentions_from_text`
--     the functions of those names; Markdown.Tags.Tree is the pass over the syntax tree.
--   Auth.Session is web/src/auth-state.ts, Auth.Redirect web/src/utils/redirect-safety.ts,
--     Auth.Connect the interceptor and the refresh of web/src/connect.ts with
--     web/src/utils/auth-redirect.ts, Auth.Manager the sharing of one refresh between callers.
--     Auth.Connect keeps a World: the clock, the session, the page, and what was sent so far.
--     Auth.Oauth is web/src/utils/oauth.ts, the entry of the session's storage that a sign-in with
--     another provider leaves and takes back.
--   Editor.State is the state, the actions and the reducer under
--     web/src/components/MemoEditor/state, with services/validationService.ts and editorMode.ts;
--     Editor.Save is services/memoService.ts and uploadService.ts, which take the state and answer
--     with the memo; Editor.Draft is services/cacheService.ts and hooks/useAutoSave.ts, which follow
--     the content of the state; Editor.Recorder is hooks/useAudioRecorder.ts, whose recordings become
--     files of the state. The last two keep the browser's side too: the timers that are set, the
--     requests for the microphone that wait, and the streams that run.
--   Memos.Queries is the part of web/src/hooks/useMemoQueries.ts that patches and finds a memo in the
--     lists that were fetched, as an optimistic update and its roll-back do.
--   Memos.Sorting is web/src/hooks/useMemoSorting.ts: `le` is the comparison that it gives to `sort`, with
--     equal memos left in place.
--   Live is web/src/hooks/useLiveMemoRefresh.ts: Live.Stream takes events out of the chunks of the
--     server's stream, Live.Events says what an event does to the cache, and Live.Connection is the
--     effect: what each `await` of `connect` comes to is an event of its `step`.
--   Tasks.Toggle is web/src/utils/markdown-manipulation.ts as far as it toggles and counts tasks, and
--     Tasks.Edits is web/src/utils/markdown-task-actions.ts; the list items that the Markdown parser
--     finds, with the line each starts in, are a parameter of both.
--   Media.Types is web/src/utils/attachment.ts and Media.Items web/src/utils/media-item.ts: `visit` is
--     one round of the second loop of `buildAttachmentVisualItems`; Media.Entries is
--     web/src/components/MemoEditor/types/attachment.ts, which builds on both.
--   Filters.Context is web/src/contexts/MemoFilterContext.tsx: the filters, their text in the address,
--     and `commit`, the two effects that keep both in step after a rendering.
--
-- How code is read. A promise that fails is a value (`throw`, or `none` of an Option). The state of a
-- module, the browser's storage and the log of requests are passed from call to call. Texts are lists
-- of code points; positions in the source of a text are exact for characters of the basic plane.
-- Records are immutable, as in the reducer.
--
-- Bounds and fuel. Each round of the loops that split a text takes at least one character, so they are
-- given one round more than the text has characters; that no character is lost shows that this is
-- enough. All other recursion is structural. Times are natural numbers of milliseconds.
--
-- Parameters, for code that is not in the repository: which characters are tag characters (a Unicode
-- regular expression), DateTexts (the printing and reading of dates), Servers (the answers to
-- requests and to refreshes, and their delays), DeepEqual (`isEqual` of lodash-es), Timestamping
-- (conversion of timestamps), Service (answers to the requests of a save), the encoding of parameters
-- of an address, `JSON.parse`, the list items of a Markdown text, and which audio types the browser records. Each has a concrete instance
-- in a module Samples.
--
-- Not modelled: React components and hooks that only connect them, the client of the query cache,
-- the translation of filters into a query, the outline of headings, the Go server, the desktop shell, generated descriptors and
-- locale data.
pub mod Api
pub mod Auth
pub mod Common
pub mod Editor
pub mod Markdown
pub mod Memos
pub mod Live
pub mod Tasks
pub mod Media
pub mod Filters
