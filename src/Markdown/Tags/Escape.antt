-- ===== src/Markdown/Tags/Escape.antt =====
-- A text that the editor escapes holds no tag when it is read back.
use memos_note.Common.{
  leb, ◌==◌, Bool-cases, length, All, Text, ℕ, zero, suc, ◌≡◌, refl, ap, ◌∙◌, ◌≢◌, inl, inr, Bool,
  true, false, not, ◌&&◌, Option, none, List, [], ◌∷◌, arith,
}
use memos_note.Markdown.Tags.{
  max_tag_length, hash, backslash, Cell, chars, unescape_backslashes, take_while, drop_while,
  is_open_hash, is_text, is_tag_cell, next_segment, parse_from, parse_segments, run_length,
  escape_tag_hashes,
}

abbrev is_short_cells : (ℕ → Bool) → List Cell → Bool
is_short_cells is_tag_char cs =
    leb 1 (length (chars (take_while (is_tag_cell is_tag_char) cs)))
    && leb (length (chars (take_while (is_tag_cell is_tag_char) cs))) max_tag_length

-- No hash that is open has a run of a tag's length behind it.
abbrev HasNoTag : (ℕ → Bool) → List Cell → Type 0
HasNoTag is_tag_char [] = Unit
HasNoTag is_tag_char (c ∷ cs) =
    (is_open_hash c ≡ true → is_short_cells is_tag_char cs ≡ false) × HasNoTag is_tag_char cs

abbrev is_short_run : (ℕ → Bool) → Text → Bool
is_short_run is_tag_char s =
    leb 1 (run_length is_tag_char s) && leb (run_length is_tag_char s) max_tag_length

unescape_backslashes-hash :
    (s : Text)
    → unescape_backslashes (backslash ∷ hash ∷ s)
      ≡ record { char = hash; escaped = true } ∷ unescape_backslashes s
unfolding unescape_backslashes
unescape_backslashes-hash s = refl

module _ (is_tag_char : ℕ → Bool) where
  -- What a text's cells are once it has been escaped and read back.
  marked : Text → List Cell
  marked [] = []
  marked (c ∷ s) =
      record { char = c; escaped = (c == hash) && is_short_run is_tag_char s } ∷ marked s

  chars-marked : (s : Text) → chars (marked s) ≡ s
  unfolding marked
  chars-marked [] = refl
  chars-marked (c ∷ s) = ap (λ t. c ∷ t) (chars-marked s)

  length-take_while-marked :
      (s : Text)
      → length (chars (take_while (is_tag_cell is_tag_char) (marked s))) ≡ run_length is_tag_char s
  unfolding marked
  length-take_while-marked [] = refl
  length-take_while-marked (c ∷ s) = ground (arith, length-take_while-marked s)

  marked-HasNoTag : (s : Text) → HasNoTag is_tag_char (marked s)
  unfolding marked
  marked-HasNoTag [] = tt
  marked-HasNoTag (c ∷ s) = (λ h. rw (length-take_while-marked s) (ground arith), marked-HasNoTag s)

  unescape_backslashes-plain :
      (c : ℕ) (s : Text)
      → c ≢ backslash
      → unescape_backslashes (c ∷ s) ≡ record { char = c; escaped = false } ∷ unescape_backslashes s
  unfolding unescape_backslashes
  unescape_backslashes-plain c [] h = refl
  unescape_backslashes-plain c (d ∷ s) h = ground arith

  unescape-escape :
      (s : Text)
      → All (λ c. c ≢ backslash) s
      → unescape_backslashes (escape_tag_hashes is_tag_char s) ≡ marked s
  unfolding marked escape_tag_hashes
  unescape-escape [] h = unfold unescape_backslashes in refl
  unescape-escape (c ∷ s) (h, hs) = elim (Bool-cases ((c == hash) && is_short_run is_tag_char s)) [
    | inl e ↦
        let c-hash : c ≡ hash = ground arith in
        rw (e, c-hash)
          (unescape_backslashes-hash _
            ∙ ap (λ cs. record { char = hash; escaped = true } ∷ cs) (unescape-escape s hs))
    | inr e ↦ rw e (
        unescape_backslashes-plain c _ h
        ∙ ap (λ cs. record { char = c; escaped = false } ∷ cs) (unescape-escape s hs))
  ]

  drop_while-HasNoTag :
      (p : Cell → Bool) (cs : List Cell)
      → HasNoTag is_tag_char cs
      → HasNoTag is_tag_char (drop_while p cs)
  drop_while-HasNoTag p [] h = tt
  drop_while-HasNoTag p (c ∷ cs) h = elim (Bool-cases (p c)) [
    | inl e ↦ rw e (drop_while-HasNoTag p cs h.1)
    | inr e ↦ rw e h
  ]

  next_segment_of_HasNoTag :
      (prev : Option ℕ) (c : Cell) (cs : List Cell)
      → HasNoTag is_tag_char (c ∷ cs)
      → (is_text (next_segment is_tag_char prev c cs).0 ≡ true)
        × HasNoTag is_tag_char (next_segment is_tag_char prev c cs).1
  unfolding next_segment
  next_segment_of_HasNoTag prev c cs h =
      ground (arith, drop_while-HasNoTag (λ d. not (is_open_hash d)) cs)

  parse_from_of_HasNoTag :
      (fuel : ℕ) (prev : Option ℕ) (cs : List Cell)
      → HasNoTag is_tag_char cs
      → All (λ s. is_text s ≡ true) (parse_from is_tag_char fuel prev cs)
  unfolding parse_from
  parse_from_of_HasNoTag zero prev cs h = tt
  parse_from_of_HasNoTag (suc fuel) prev [] h = tt
  parse_from_of_HasNoTag (suc fuel) prev (c ∷ cs) h =
      let (is_plain, rest) = next_segment_of_HasNoTag prev c cs h in
      (is_plain, parse_from_of_HasNoTag fuel _ _ rest)

  -- A text without backslashes that is escaped and then read back has the same characters, and no
  -- segment of it is a tag.
  pub parse_segments-escape_tag_hashes :
      (s : Text)
      → All (λ c. c ≢ backslash) s
      → let cells = unescape_backslashes (escape_tag_hashes is_tag_char s) in
        (chars cells ≡ s) × All (λ g. is_text g ≡ true) (parse_segments is_tag_char cells)
  unfolding parse_segments
  parse_segments-escape_tag_hashes s h = rw (unescape-escape s h) (
    chars-marked s,
    parse_from_of_HasNoTag (suc (length (marked s))) none (marked s) (marked-HasNoTag s),
  )
