-- ===== src/Live/Connection/Samples.antt =====
-- The theorems on concrete connections, and tests.
use memos_note.Common.{
  Text, codes, concat, ◌≡◌, refl, true, false, Option, none, some, List, [], ◌∷◌, ◌++◌,
}
use memos_note.Live.Connection.{
  connected, disconnected, connecting, initial_retry_delay_ms, reading, Live, Event, token_given,
  responded, chunk_read, failed, stream_ended, timer_fires, unmounts, min_delay, connect,
  fetch_first, open_stream, accept, read_chunk, step, run, start,
}
use memos_note.Live.Connection.Cleanup.{run-unmounts, run-unmounts_waiting}
use memos_note.Live.Connection.Liveness.{failures, recovery, run-recovery, failures-min_delay}
use memos_note.Live.Connection.Retry.{IsSound, run-IsSound}
use memos_note.Live.Connection.Reading.{chunks_read, run-chunks_read}
use memos_note.Live.Stream.{
  split_messages, pop, receive, ChangeEvent, events_of_line, events_of_lines, events_of_message,
  events_of_messages,
}
use memos_note.Live.Events.{
  memo_lists, memo_detail, invalidate, memo_updated, comments_of, handle_sse_event,
  handle_sse_events,
}

abbrev updates : Text → Option ChangeEvent
updates s = some (record { type = memo_updated; name = s; parent = none })

abbrev someone : Option Text
someone = some (codes "users/1")

abbrev opening : List Event
opening = token_given (some (codes "t")) ∷ responded (record { status = 200; has_body = true }) ∷ []

abbrev open_connection : Live
open_connection = run updates someone opening (start updates someone)

abbrev two_chunks : List Text
two_chunks = codes "data: memos/1\n" ∷ codes "\ndata: me" ∷ []

opening_test : (open_connection.phase ≡ reading) × (open_connection.status ≡ connected)
unfolding connect step fetch_first accept open_stream
opening_test = (refl, refl)

reading_test :
    (run updates someone (chunks_read two_chunks) open_connection).calls
    ≡ invalidate (memo_detail (codes "memos/1")) ∷ invalidate memo_lists ∷ []
unfolding connect step fetch_first accept open_stream read_chunk receive split_messages pop
    events_of_messages events_of_message events_of_lines events_of_line handle_sse_events
    handle_sse_event comments_of
reading_test = refl

run-IsSound_example : IsSound (
    run updates someone
      (opening ++ (stream_ended ∷ timer_fires ∷ unmounts ∷ []))
      (start updates someone))
run-IsSound_example =
    run-IsSound updates someone (opening ++ (stream_ended ∷ timer_fires ∷ unmounts ∷ []))

run-recovery_example :
    let l = run updates someone (opening ++ (stream_ended ∷ [])) (start updates someone) in
    let l' = run updates someone (recovery (codes "t") l.phase) l in
    (l'.phase ≡ reading) × (l'.status ≡ connected)
run-recovery_example =
    run-recovery updates someone (opening ++ (stream_ended ∷ [])) b't' [] refl refl

failures-min_delay_example :
    (run updates someone
      (failures 7 (codes "t") ++ (token_given (some (codes "t")) ∷ failed false ∷ []))
      (start updates someone)).retry_timeout
    ≡ some 30000
unfolding min_delay
failures-min_delay_example = failures-min_delay updates someone 7 b't' [] refl

run-chunks_read_example :
    (run updates someone (chunks_read two_chunks) open_connection).calls
    ≡ open_connection.calls
      ++ handle_sse_events (events_of_messages updates (pop (split_messages (concat two_chunks))).0)
unfolding connect step fetch_first accept open_stream
run-chunks_read_example = run-chunks_read updates someone two_chunks open_connection refl refl refl

run-unmounts_example :
    let l' =
      run updates someone
        (unmounts ∷ chunk_read (codes "data: memos/1\n\n") ∷ [])
        open_connection in
    (l'.status ≡ disconnected)
    × (l'.retry_timeout ≡ none)
    × (l'.retry_delay ≡ initial_retry_delay_ms)
unfolding connect step fetch_first accept open_stream
run-unmounts_example =
    run-unmounts updates someone (chunk_read (codes "data: memos/1\n\n") ∷ []) open_connection refl

run-unmounts_waiting_example :
    let l' =
      run updates someone
        (unmounts ∷ token_given (some (codes "t")) ∷ [])
        (start updates someone) in
    (l'.mounted ≡ false) × (l'.status ≡ connecting) × (l'.fetches ≡ codes "t" ∷ [])
unfolding connect
run-unmounts_waiting_example =
    run-unmounts_waiting updates someone b't' [] (start updates someone) refl
