-- ===== src/Live/Stream/Samples.antt =====
-- The theorems on concrete streams, and tests.
use memos_note.Common.{Text, codes, concat, ◌≡◌, refl, Option, none, some, List, [], ◌∷◌}
use memos_note.Live.Stream.{
  split_messages, pop, receive, receive_all, ChangeEvent, events_of_line, events_of_lines,
  events_of_message, events_of_messages,
}
use memos_note.Live.Stream.Chunks.{receive_all-concat}

abbrev cut_stream : List Text
cut_stream = codes "data: 1\n" ∷ codes "\ndata: 2" ∷ codes "\n\nda" ∷ []

receive_all-concat_example : receive_all cut_stream [] ≡ pop (split_messages (concat cut_stream))
receive_all-concat_example = receive_all-concat cut_stream

abbrev last_event : Text → Option ChangeEvent
last_event s = some (record { type = s; name = codes "m"; parent = none })

messages_test : receive_all cut_stream [] ≡ (codes "data: 1" ∷ codes "data: 2" ∷ [], codes "da")
unfolding receive_all receive split_messages pop
messages_test = refl

events_test :
    events_of_messages last_event (codes ": beat" ∷ codes "id: 1\ndata: x" ∷ codes "  " ∷ [])
    ≡ record { type = codes "x"; name = codes "m"; parent = none } ∷ []
unfolding events_of_messages events_of_message events_of_lines events_of_line
events_test = refl
