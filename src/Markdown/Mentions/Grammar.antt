-- ===== src/Markdown/Mentions/Grammar.antt =====
-- The editor's regular expression for usernames, `MENTION_RUN` of web/src/utils/mention-grammar.ts,
-- against the renderer's loop; and the editor's tokenizer for mentions,
-- web/src/components/MemoEditor/Editor/Mention.ts.
use memos_note.Common.{
  ◌==◌, if◌then◌else◌, Bool-cases, any, map_option, Text, ℕ, zero, suc, ◌-◌, ◌≡◌, refl, sym, ap,
  inl, inr, Bool, true, false, ◌&&◌, ◌||◌, Option, none, some, [], ◌∷◌, arith,
}
use memos_note.Markdown.Mentions.{
  max_mention_length, at_sign, is_alphanumeric, is_mention_char, is_mention_boundary, Segment, text,
  mention, to_lower_case, take_username, head_is_mention_char, next_segment,
}

-- `(?=[A-Za-z0-9-]{0,n}[A-Za-z0-9])`: the engine tries every length of the repetition.
looks_ahead : ℕ → Text → Bool
looks_ahead n [] = false
looks_ahead zero (c ∷ s) = is_alphanumeric c
looks_ahead (suc n) (c ∷ s) = is_alphanumeric c || (is_mention_char c && looks_ahead n s)

-- `MENTION_RUN`: after the look-ahead, `[A-Za-z0-9-]{1,32}` takes the longest run.
mention_run : Text → Option Text
unfolding looks_ahead
mention_run s =
    if looks_ahead (max_mention_length - 1) s && head_is_mention_char s
    then some (take_username max_mention_length s)
    else none

-- `tokenize` at a source text, given the last character before it
pub tokenize_mention : Option ℕ → Text → Option Text
unfolding mention_run
tokenize_mention prev [] = none
tokenize_mention prev (c ∷ s) =
    if (c == at_sign) && is_mention_boundary prev then mention_run s else none

-- The renderer's mention at the front of a text, if there is one there.
pub rendered_mention : Segment → Option Text
rendered_mention (text value) = none
rendered_mention (mention name) = some name

alphanumeric_false : (c : ℕ) → is_mention_char c ≡ false → is_alphanumeric c ≡ false
alphanumeric_false c h = ground arith

or-false : (b : Bool) → (b || false) ≡ b
or-false true = refl
or-false false = refl

any-eq-looks_ahead :
    (n : ℕ) (s : Text) → any is_alphanumeric (take_username (suc n) s) ≡ looks_ahead n s
unfolding looks_ahead
any-eq-looks_ahead n [] = refl
any-eq-looks_ahead zero (c ∷ s) = elim (Bool-cases (is_mention_char c)) [
  | inl h ↦ rw h (or-false (is_alphanumeric c))
  | inr h ↦ rw h (sym (alphanumeric_false c h))
]
any-eq-looks_ahead (suc n) (c ∷ s) = elim (Bool-cases (is_mention_char c)) [
  | inl h ↦ rw h (ap (λ b. is_alphanumeric c || b) (any-eq-looks_ahead n s))
  | inr h ↦ rw (h, alphanumeric_false c h)
]

-- The editor's tokenizer and the renderer's loop find a mention at the same places, and the same
-- one up to case: at every text and every character before it.
pub tokenize_mention-eq-rendered :
    (prev : Option ℕ) (c : ℕ) (s : Text)
    → map_option to_lower_case (tokenize_mention prev (c ∷ s))
      ≡ rendered_mention (next_segment prev c s).0
unfolding tokenize_mention rendered_mention next_segment
tokenize_mention-eq-rendered prev c s = ground (arith, any-eq-looks_ahead 31 s)
