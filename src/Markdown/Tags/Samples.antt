-- ===== src/Markdown/Tags/Samples.antt =====
-- The theorems on tags at concrete texts, with letters and `_ - /` as the tag characters.
use memos_note.Common.{
  leb, ◌==◌, if◌then◌else◌, All, codes, ℕ, ◌≡◌, refl, Bool, true, false, ◌&&◌, ◌||◌, none, List, [],
  ◌∷◌, arith,
}
use memos_note.Markdown.Tags.{
  hash, text, tag, Cell, chars, unescape_backslashes, render_all, is_text, unescaped_cells,
  next_segment, parse_segments, escape_tag_hashes,
}
use memos_note.Markdown.Tags.Lossless.{render_all-parse_segments}
use memos_note.Markdown.Tags.Escape.{parse_segments-escape_tag_hashes}
use memos_note.Markdown.Tags.Tokenizer.{
  rendered_tag, followed_by_hash, tokenize_tag, tokenize_tag-eq-rendered,
}
use memos_note.Markdown.Tags.Tree.{
  text_node, link, parent, Nodes, nil, cons, nodes_text, nodes_links, remark_tag,
  remark_tag-keeps_text,
}

abbrev is_letter : ℕ → Bool
is_letter c = (leb b'a' c && leb c b'z') || (c == b'_') || (c == b'-') || (c == b'/')

abbrev note : List Cell
note = unescaped_cells (codes "see #work/todo and ##no")

tags_of_note :
    parse_segments is_letter note
    ≡ text (codes "see ")
      ∷ tag (codes "work/todo")
      ∷ text (codes " and ")
      ∷ text (codes "#")
      ∷ text (codes "#")
      ∷ text (codes "no")
      ∷ []
unfolding parse_segments
tags_of_note = refl

escaped_hash :
    parse_segments is_letter (unescape_backslashes (codes "a \\#b")) ≡ text (codes "a #b") ∷ []
unfolding parse_segments unescape_backslashes
escaped_hash = refl

render_all-parse_segments_example : render_all (parse_segments is_letter note) ≡ chars note
render_all-parse_segments_example = render_all-parse_segments is_letter note

parse_segments-escape_tag_hashes_example :
    let cells = unescape_backslashes (escape_tag_hashes is_letter (codes "a #b")) in
    (chars cells ≡ codes "a #b") × All (λ g. is_text g ≡ true) (parse_segments is_letter cells)
parse_segments-escape_tag_hashes_example =
    parse_segments-escape_tag_hashes is_letter (codes "a #b") (omega arith)

abbrev tree : Nodes
tree =
    cons (text_node (codes "x #y") none)
      (cons (parent (cons (link (cons (text_node (codes "#z") none) nil)) nil)) nil)

remark_tag-keeps_text_example :
    (nodes_text (remark_tag is_letter [] tree) ≡ nodes_text tree)
    × (nodes_links (remark_tag is_letter [] tree) ≡ nodes_links tree)
remark_tag-keeps_text_example = remark_tag-keeps_text is_letter [] tree

tokenize_tag-eq-rendered_example : tokenize_tag is_letter (hash ∷ codes "work now") ≡ (
    if followed_by_hash is_letter (codes "work now")
    then none
    else rendered_tag
        (next_segment is_letter none
          (record { char = hash; escaped = false })
          (unescaped_cells (codes "work now"))).0)
tokenize_tag-eq-rendered_example =
    tokenize_tag-eq-rendered is_letter none hash (codes "work now") refl refl refl
