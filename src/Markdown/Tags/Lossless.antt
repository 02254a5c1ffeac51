-- ===== src/Markdown/Tags/Lossless.antt =====
-- Splitting a text into tags and plain text loses nothing, and what it calls a tag is one.
use memos_note.Common.{
  Bool-cases, length, All, get_last?, ℕ, zero, suc, ◌≤◌, ◌<◌, ◌≡◌, refl, inl, inr, Bool, true, not,
  Option, none, List, [], ◌∷◌, ◌++◌, arith,
}
use memos_note.Markdown.Tags.{
  max_tag_length, Segment, text, tag, Cell, chars, take_while, drop_while, is_open_hash, render,
  render_all, is_tag_cell, next_segment, parse_from, parse_segments,
}

chars-take-drop :
    (p : Cell → Bool) (cs : List Cell)
    → chars (take_while p cs) ++ chars (drop_while p cs) ≡ chars cs
chars-take-drop p [] = refl
chars-take-drop p (c ∷ cs) = elim (Bool-cases (p c)) [
  | inl h ↦ rw h (rw (chars-take-drop p cs))
  | inr h ↦ rw h
]

length-drop_while : (p : Cell → Bool) (cs : List Cell) → length (drop_while p cs) ≤ length cs
length-drop_while p [] = omega arith
length-drop_while p (c ∷ cs) = ground (arith, length-drop_while p cs)

take_while-All :
    (p : ℕ → Bool) (cs : List Cell) → All (λ c. p c ≡ true) (chars (take_while (λ c. p c.char) cs))
take_while-All p [] = tt
take_while-All p (c ∷ cs) = elim (Bool-cases (p c.char)) [
  | inl h ↦ rw h (h, take_while-All p cs)
  | inr h ↦ rw h tt
]

-- What the grammar asks of a tag.
abbrev pub IsTag : (ℕ → Bool) → Segment → Type 0
IsTag is_tag_char (text value) = Unit
IsTag is_tag_char (tag value) =
    (1 ≤ length value) × (length value ≤ max_tag_length) × All (λ c. is_tag_char c ≡ true) value

module _ (is_tag_char : ℕ → Bool) where
  render-next_segment :
      (prev : Option ℕ) (c : Cell) (cs : List Cell)
      → render (next_segment is_tag_char prev c cs).0
          ++ chars (next_segment is_tag_char prev c cs).1
        ≡ chars (c ∷ cs)
  unfolding next_segment
  render-next_segment prev c cs = ground (
    arith,
    chars-take-drop (is_tag_cell is_tag_char) cs,
    chars-take-drop (λ d. not (is_open_hash d)) cs,
  )

  length-next_segment :
      (prev : Option ℕ) (c : Cell) (cs : List Cell)
      → length (next_segment is_tag_char prev c cs).1 ≤ length cs
  unfolding next_segment
  length-next_segment prev c cs = ground (
    arith,
    length-drop_while (is_tag_cell is_tag_char) cs,
    length-drop_while (λ d. not (is_open_hash d)) cs,
  )

  next_segment-IsTag :
      (prev : Option ℕ) (c : Cell) (cs : List Cell)
      → IsTag is_tag_char (next_segment is_tag_char prev c cs).0
  unfolding next_segment
  next_segment-IsTag prev c cs = ground (arith, take_while-All is_tag_char cs)

  render_all-parse_from :
      (fuel : ℕ) (prev : Option ℕ) (cs : List Cell)
      → length cs < fuel
      → render_all (parse_from is_tag_char fuel prev cs) ≡ chars cs
  unfolding parse_from
  render_all-parse_from zero prev cs h = absurd (omega arith)
  render_all-parse_from (suc fuel) prev [] h = refl
  render_all-parse_from (suc fuel) prev (c ∷ cs) h =
      let (segment, rest) = next_segment is_tag_char prev c cs in
      rw
        (render_all-parse_from fuel (get_last? (render segment)) rest
          (omega (arith, length-next_segment prev c cs)))
        (render-next_segment prev c cs)

  parse_from-IsTag :
      (fuel : ℕ) (prev : Option ℕ) (cs : List Cell)
      → All (IsTag is_tag_char) (parse_from is_tag_char fuel prev cs)
  unfolding parse_from
  parse_from-IsTag zero prev cs = tt
  parse_from-IsTag (suc fuel) prev [] = tt
  parse_from-IsTag (suc fuel) prev (c ∷ cs) =
      let (segment, rest) = next_segment is_tag_char prev c cs in
      (next_segment-IsTag prev c cs, parse_from-IsTag fuel (get_last? (render segment)) rest)

  -- Written out again, the segments of a text are that text, for every table of tag characters:
  -- no character is lost, doubled or moved, and the rounds given to the loop are enough.
  pub render_all-parse_segments :
      (cs : List Cell) → render_all (parse_segments is_tag_char cs) ≡ chars cs
  unfolding parse_segments
  render_all-parse_segments cs = render_all-parse_from (suc (length cs)) none cs (omega arith)

  -- Every segment that is called a tag holds 1 to 100 characters, all of them tag characters.
  pub parse_segments-IsTag :
      (cs : List Cell) → All (IsTag is_tag_char) (parse_segments is_tag_char cs)
  unfolding parse_segments
  parse_segments-IsTag cs = parse_from-IsTag (suc (length cs)) none cs
