-- ===== src/Filters/Context/Samples.antt =====
-- The theorems with a concrete encoding, and tests.
use memos_note.Common.{
  ltb, ◌==◌, if◌then◌else◌, map_option, Text, codes, text_eq, has_char, ℕ, ◌+◌, ◌-◌, ◌≡◌, refl, ap,
  ◌∙◌, true, false, Option, none, some, List, [], ◌∷◌, ◌++◌, arith,
}
use memos_note.Filters.Context.{
  comma, colon, MemoFilter, content_search, get_memo_filter_key, uniq_by_key, add_filter,
  stringify_filters, parse_parts, parse_pieces, parse_filter_query, commit,
}
use memos_note.Filters.Context.Reading.{parse_filter_query-stringify_filters}
use memos_note.Filters.Context.Sync.{
  run, filters_change, commits, address_changes, mounting, IsSettled, run-IsSettled,
}

-- Every code moved beyond those that separate.
encode : Text → Text
encode [] = []
encode (c ∷ s) = (c + 100) ∷ encode s

decode : Text → Option Text
decode [] = some []
decode (c ∷ s) = map_option (λ r. (c - 100) ∷ r) (decode s)

decode-encode : (s : Text) → decode (encode s) ≡ some s
unfolding encode decode
decode-encode [] = refl
decode-encode (c ∷ s) =
    ap (map_option (λ r. (c + 100 - 100) ∷ r)) (decode-encode s) ∙ ap (λ a. some (a ∷ s)) (back c)
  where
    back : (c : ℕ) → c + 100 - 100 ≡ c
    back c = omega arith

encode-has_char : (d : ℕ) → ltb d 100 ≡ true → (s : Text) → has_char d (encode s) ≡ false
unfolding encode
encode-has_char d h [] = refl
encode-has_char d h (c ∷ s) = rw (other c) (encode-has_char d h s)
  where
    other : (c : ℕ) → ((c + 100) == d) ≡ false
    other c = ground (arith, h)

abbrev two_filters : List MemoFilter
two_filters =
    record { factor = codes "tagSearch"; value = codes "a,b" }
    ∷ record { factor = content_search; value = codes "x:y" }
    ∷ []

parse_filter_query-stringify_filters_example :
    parse_filter_query encode decode (stringify_filters encode decode two_filters) ≡ two_filters
parse_filter_query-stringify_filters_example =
    parse_filter_query-stringify_filters encode decode decode-encode (encode-has_char comma refl)
      (encode-has_char colon refl) two_filters ((refl, refl), ((refl, refl), tt))

run-IsSettled_example :
    let s =
      run encode decode decode-encode
        (encode-has_char comma refl)
        (encode-has_char colon refl)
        (filters_change two_filters ∷ commits ∷ address_changes (codes "pinned:") ∷ [])
        (mounting encode decode decode-encode
          (encode-has_char comma refl)
          (encode-has_char colon refl)
          []) in
    IsSettled encode decode decode-encode
      (encode-has_char comma refl)
      (encode-has_char colon refl)
      (commit encode decode (commit encode decode s))
    × ((commit encode decode s).state ≡ (
        if text_eq s.url s.last_synced_url
        then s.state
        else parse_filter_query encode decode s.url))
run-IsSettled_example =
    run-IsSettled encode decode decode-encode (encode-has_char comma refl)
      (encode-has_char colon refl) []
      (filters_change two_filters ∷ commits ∷ address_changes (codes "pinned:") ∷ [])
      (((refl, refl), ((refl, refl), tt)), (tt, (tt, tt)))

query_test :
    parse_filter_query encode decode (codes "pinned:,x")
    ≡ record { factor = codes "pinned"; value = [] }
      ∷ record { factor = codes "x"; value = [] }
      ∷ []
unfolding parse_filter_query parse_pieces parse_parts decode
query_test = refl

add_test :
    (add_filter
      (record { factor = codes "pinned"; value = [] })
      (add_filter
        (record { factor = codes "pinned"; value = [] })
        (record { filters = two_filters; shortcut = none }))).filters
    ≡ two_filters ++ record { factor = codes "pinned"; value = [] } ∷ []
unfolding add_filter uniq_by_key get_memo_filter_key
add_test = refl
