-- ===== src/Live/Stream.antt =====
-- The reading of messages from the chunks of a stream: the loop over `reader.read()` in
-- web/src/hooks/useLiveMemoRefresh.ts. Chunks are texts, as the stream's decoder gives them;
-- `JSON.parse` is a parameter, `none` where it throws or gives no object.
pub mod Chunks
mod Samples
use memos_note.Common.{
  ◌==◌, if◌then◌else◌, drop, Text, codes, starts_with, cons_piece, split, is_blank, ℕ, ◌&&◌, Option,
  none, some, List, [], ◌∷◌, ◌++◌,
}

abbrev pub newline : ℕ
newline = b'\n'

-- `buffer.split("\n\n")`
unfoldable pub split_messages : Text → List Text
split_messages [] = [] ∷ []
split_messages (a ∷ []) = (a ∷ []) ∷ []
split_messages (a ∷ b ∷ s) =
    let after = split_messages s in
    let along = split_messages (b ∷ s) in
    if (a == newline) && (b == newline) then [] ∷ after else cons_piece a along

-- `messages.pop() || ""`, and the messages that are left
unfoldable pub pop : List Text → List Text × Text
pop [] = ([], [])
pop (m ∷ []) = ([], m)
pop (m ∷ n ∷ ms) = let (rest, last) = pop (n ∷ ms) in (m ∷ rest, last)

-- One round: a chunk is appended to the buffer, the complete messages are taken off it.
unfoldable pub receive : Text → Text → List Text × Text
receive chunk buffer = pop (split_messages (buffer ++ chunk))

unfoldable pub receive_all : List Text → Text → List Text × Text
receive_all [] buffer = ([], buffer)
receive_all (chunk ∷ chunks) buffer =
    let (messages, buffer') = receive chunk buffer in
    let (later, last) = receive_all chunks buffer' in (messages ++ later, last)

-- `SSEChangeEvent`
pub record ChangeEvent : Type 0 where
  pub type : Text
  pub name : Text
  pub parent : Option Text

abbrev pub data_prefix : Text
data_prefix = codes "data: "

module _ (parse : Text → Option ChangeEvent) where
  unfoldable pub events_of_line : Text → List ChangeEvent
  events_of_line line =
      if starts_with line data_prefix
      then elim (parse (drop 6 line)) [ none ↦ [] | some event ↦ event ∷ [] ]
      else []

  unfoldable pub events_of_lines : List Text → List ChangeEvent
  events_of_lines [] = []
  events_of_lines (line ∷ lines) = events_of_line line ++ events_of_lines lines

  unfoldable pub events_of_message : Text → List ChangeEvent
  events_of_message message =
      if is_blank message then [] else events_of_lines (split newline message)

  unfoldable pub events_of_messages : List Text → List ChangeEvent
  events_of_messages [] = []
  events_of_messages (message ∷ messages) = events_of_message message ++ events_of_messages messages
