-- ===== src/Live/Connection/Reading.antt =====
-- What is done while a stream is read: the events are those of its whole text.
use memos_note.Common.{
  Text, concat, ◌≡◌, refl, sym, ap, ◌∙◌, true, Option, List, [], ◌∷◌, ◌++◌, append-nil,
  append_assoc,
}
use memos_note.Live.Connection.{reading, Live, Event, chunk_read, read_chunk, step, run}
use memos_note.Live.Stream.{
  split_messages, pop, receive, receive_all, ChangeEvent, events_of_messages,
}
use memos_note.Live.Events.{CacheCall, handle_sse_event, handle_sse_events}
use memos_note.Live.Stream.Chunks.{events_of_messages-append, receive_all-concat}

handle_sse_events-append :
    (es fs : List ChangeEvent)
    → handle_sse_events (es ++ fs) ≡ handle_sse_events es ++ handle_sse_events fs
unfolding handle_sse_events
handle_sse_events-append [] fs = refl
handle_sse_events-append (e ∷ es) fs =
    ap (λ r. handle_sse_event e ++ r) (handle_sse_events-append es fs)
    ∙ sym (append_assoc (handle_sse_event e) (handle_sse_events es) (handle_sse_events fs))

abbrev pub chunks_read : List Text → List Event
chunks_read [] = []
chunks_read (chunk ∷ chunks) = chunk_read chunk ∷ chunks_read chunks

module _ (parse : Text → Option ChangeEvent) (current_user_name : Option Text) where
  -- The calls that messages make.
  calls_of : List Text → List CacheCall
  calls_of messages = handle_sse_events (events_of_messages parse messages)

  calls_of-append : (ms ns : List Text) → calls_of (ms ++ ns) ≡ calls_of ms ++ calls_of ns
  unfolding calls_of
  calls_of-append ms ns =
      ap handle_sse_events (events_of_messages-append parse ms ns)
      ∙ handle_sse_events-append (events_of_messages parse ms) (events_of_messages parse ns)

  read_on :
      (chunk : Text) (l : Live)
      → l.phase ≡ reading
      → l.mounted ≡ true
      → let l' = step parse current_user_name l.phase (chunk_read chunk) l in
        (l'.phase ≡ reading)
        × (l'.mounted ≡ true)
        × (l'.buffer ≡ (receive chunk l.buffer).1)
        × (l'.calls ≡ l.calls ++ calls_of (receive chunk l.buffer).0)
  unfolding step read_chunk calls_of receive
  read_on chunk l h m = rw h (rw m (refl, refl, refl, refl))

  calls_read :
      (chunks : List Text) (l : Live)
      → l.phase ≡ reading
      → l.mounted ≡ true
      → (run parse current_user_name (chunks_read chunks) l).calls
        ≡ l.calls ++ calls_of (receive_all chunks l.buffer).0
  unfolding receive_all calls_of handle_sse_events events_of_messages
  calls_read [] l h m = sym (append-nil l.calls)
  calls_read (chunk ∷ chunks) l h m =
      let (h', m', b, k) = read_on chunk l h m in
      calls_read chunks (step parse current_user_name l.phase (chunk_read chunk) l) h' m'
      ∙ (ap
            (λ r.
              r
              ++ calls_of
                  (receive_all chunks
                    (step parse current_user_name l.phase (chunk_read chunk) l).buffer).0)
            k
          ∙ (ap
                (λ t.
                  (l.calls ++ calls_of (receive chunk l.buffer).0)
                  ++ calls_of (receive_all chunks t).0)
                b
              ∙ (append_assoc l.calls (calls_of (receive chunk l.buffer).0)
                    (calls_of (receive_all chunks (receive chunk l.buffer).1).0)
                  ∙ ap (λ r. l.calls ++ r)
                      (sym (
                        calls_of-append (receive chunk l.buffer).0
                          (receive_all chunks (receive chunk l.buffer).1).0)))))

  -- While a stream is read and the effect is mounted, from an empty buffer: however the text that came
  -- was cut into chunks, the calls on the cache are those of the events of the complete messages of
  -- the whole text, in their order.
  pub run-chunks_read :
      (chunks : List Text) (l : Live)
      → l.phase ≡ reading
      → l.mounted ≡ true
      → l.buffer ≡ []
      → (run parse current_user_name (chunks_read chunks) l).calls
        ≡ l.calls
          ++ handle_sse_events (events_of_messages parse (pop (split_messages (concat chunks))).0)
  unfolding calls_of
  run-chunks_read chunks l h m b =
      calls_read chunks l h m
      ∙ ap (λ r. l.calls ++ calls_of r.0) (ap (receive_all chunks) b ∙ receive_all-concat chunks)
