-- ===== src/Markdown/Tags/Tokenizer.antt =====
-- The editor's tokenizer for tags, web/src/components/MemoEditor/Editor/Tag.ts, against the
-- renderer's loop.
use memos_note.Common.{
  leb, ◌==◌, if◌then◌else◌, Bool-cases, length, Text, is_char, ℕ, ◌≡◌, refl, ap, inl, inr, Bool,
  true, false, ◌&&◌, Option, none, some, [], ◌∷◌, arith,
}
use memos_note.Markdown.Tags.{
  max_tag_length, hash, Segment, text, tag, chars, take_while, unescaped_cells, is_tag_cell,
  head_is_tag_char, head_char, next_segment,
}

-- The renderer's tag at the front of some cells, if there is one there.
pub rendered_tag : Segment → Option Text
rendered_tag (text value) = none
rendered_tag (tag value) = some value

head? : Text → Option ℕ
head? [] = none
head? (c ∷ _) = some c

module _ (is_tag_char : ℕ → Bool) where
  take_run : Text → Text
  take_run [] = []
  take_run (c ∷ s) = if is_tag_char c then c ∷ take_run s else []

  drop_run : Text → Text
  drop_run [] = []
  drop_run (c ∷ s) = let rest = drop_run s in if is_tag_char c then rest else c ∷ s

  -- Whether the run of tag characters that a text begins with is directly followed by a hash.
  pub followed_by_hash : Text → Bool
  unfolding drop_run head?
  followed_by_hash s = is_char hash (head? (drop_run s))

  -- `tokenize`: `/^#(TAG_RUN)/u`, declined before a further hash
  pub tokenize_tag : Text → Option Text
  unfolding take_run followed_by_hash
  tokenize_tag [] = none
  tokenize_tag (c ∷ s) =
      if (c == hash) && (leb 1 (length (take_run s)) && leb (length (take_run s)) max_tag_length)
      then (if followed_by_hash s then none else some (take_run s))
      else none

  chars-take_while :
      (s : Text) → chars (take_while (is_tag_cell is_tag_char) (unescaped_cells s)) ≡ take_run s
  unfolding take_run
  chars-take_while [] = refl
  chars-take_while (c ∷ s) = elim (Bool-cases (is_tag_char c)) [
    | inl h ↦ rw h (ap (λ t. c ∷ t) (chars-take_while s))
    | inr h ↦ rw h
  ]

  take_run-pos :
      (s : Text) → leb 1 (length (take_run s)) ≡ head_is_tag_char is_tag_char (unescaped_cells s)
  unfolding take_run
  take_run-pos [] = refl
  take_run-pos (c ∷ s) = ground arith

  head_is_tag_char-ne :
      (s : Text) (d : ℕ)
      → is_tag_char d ≡ false
      → head_is_tag_char is_tag_char (unescaped_cells s) ≡ true
      → is_char d (head_char is_tag_char (unescaped_cells s)) ≡ false
  head_is_tag_char-ne [] d h k = refl
  head_is_tag_char-ne (c ∷ s) d h k = elim (Bool-cases (c == d)) [
    | inl e ↦ let c-d : c ≡ d = ground arith in cc (ap is_tag_char c-d)
    | inr e ↦ e
  ]

  rendered_tag-next_segment :
      (prev : Option ℕ) (c : ℕ) (s : Text)
      → is_tag_char hash ≡ false
      → is_tag_char b' ' ≡ false
      → is_char hash prev ≡ false
      → rendered_tag
          (next_segment is_tag_char prev
            (record { char = c; escaped = false })
            (unescaped_cells s)).0
        ≡ (if (c == hash)
              && (leb 1 (length (take_run s)) && leb (length (take_run s)) max_tag_length)
            then some (take_run s)
            else none)
  unfolding next_segment rendered_tag
  rendered_tag-next_segment prev c s h-hash h-space h-prev = rw (chars-take_while s) (
      ground (
        arith,
        take_run-pos s,
        head_is_tag_char-ne s hash h-hash,
        head_is_tag_char-ne s b' ' h-space,
      ))

  -- At any text with no hash before it, the editor's tokenizer finds the tag that the renderer
  -- finds, except where the run is directly followed by a hash: there the editor finds none.
  -- Neither a hash nor a space is taken to be a tag character.
  pub tokenize_tag-eq-rendered :
      (prev : Option ℕ) (c : ℕ) (s : Text)
      → is_tag_char hash ≡ false
      → is_tag_char b' ' ≡ false
      → is_char hash prev ≡ false
      → tokenize_tag (c ∷ s) ≡ (
          if followed_by_hash s
          then none
          else rendered_tag
              (next_segment is_tag_char prev
                (record { char = c; escaped = false })
                (unescaped_cells s)).0)
  unfolding tokenize_tag
  tokenize_tag-eq-rendered prev c s h-hash h-space h-prev =
      rw (rendered_tag-next_segment prev c s h-hash h-space h-prev) (ground arith)
