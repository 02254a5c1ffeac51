-- ===== src/Markdown/Mentions/Samples.antt =====
-- The theorems on mentions at concrete texts.
use memos_note.Common.{map_option, Text, codes, ◌≡◌, refl, none, [], ◌∷◌}
use memos_note.Markdown.Mentions.{
  at_sign, to_lower_case, next_segment, parse_mentions_from_text, extract_mention_usernames,
}
use memos_note.Markdown.Mentions.Lossless.{render_all, parse_mentions-lossless}
use memos_note.Markdown.Mentions.Grammar.{
  tokenize_mention, rendered_mention, tokenize_mention-eq-rendered,
}

abbrev note : Text
note = codes "cc @Alice, @bob-2 a@x.org @--- @Alice"

mentions_of_note : extract_mention_usernames note ≡ codes "alice" ∷ codes "bob-2" ∷ []
unfolding extract_mention_usernames
mentions_of_note = refl

parse_mentions-lossless_example :
    to_lower_case (render_all (parse_mentions_from_text note)) ≡ to_lower_case note
parse_mentions-lossless_example = parse_mentions-lossless note

tokenize_mention-eq-rendered_example :
    map_option to_lower_case (tokenize_mention none (at_sign ∷ codes "Bob!"))
    ≡ rendered_mention (next_segment none at_sign (codes "Bob!")).0
tokenize_mention-eq-rendered_example = tokenize_mention-eq-rendered none at_sign (codes "Bob!")
