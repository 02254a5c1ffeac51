-- ===== src/Tasks/Edits/Placing.antt =====
-- Where the marker of a task is, told by the text alone.
use memos_note.Common.{
  ◌==◌, if◌then◌else◌, both, length, length-append, any, all, map_option, Text, text_eq, is_space,
  begins, span-append, ℕ, suc, ◌+◌, ◌≡◌, refl, sym, ap, ◌∙◌, true, false, ◌||◌, some, [], ◌∷◌, ◌++◌,
  append_assoc, arith,
}
use memos_note.Tasks.Edits.{
  get_line_starts, end_of, is_digit, take_numbered, take_bullet, offset_after, marker_offset,
  marker_in, marker_of,
}
use memos_note.Tasks.Toggle.{is_bullet, is_mark, newline}
use memos_note.Tasks.Edits.Starts.{
  newlines, at_line_start, line_start_at, next_start_at, first_line, first_line-append,
  slice-append, slice-first_line, end_of_line, get_line_info-some,
}

-- A bullet, or a number with a point or a parenthesis.
pub data IsBullet : Text → Type 0 where
  sign : (c : ℕ) → is_bullet c ≡ true → IsBullet (c ∷ [])
  number :
      (digits : Text) (c : ℕ)
      → all is_digit digits ≡ true
      → text_eq digits [] ≡ false
      → ((c == b'.') || (c == b')')) ≡ true
      → IsBullet (digits ++ c ∷ [])

-- What stands before the box in the line of a task.
pub record IsTaskStart (front : Text) : Type 0 where
  pub indent : Text
  pub bullet : Text
  pub gap : Text
  pub is_front : front ≡ indent ++ (bullet ++ gap)
  pub indent_spaces : all is_space indent ≡ true
  pub bullet_one : IsBullet bullet
  pub gap_spaces : all is_space gap ≡ true
  pub gap_some : text_eq gap [] ≡ false

digit_lem : (d : ℕ) → is_digit d ≡ true → (is_bullet d ≡ false) × (is_space d ≡ false)
digit_lem d h = ground arith

dot_lem : (c : ℕ) → ((c == b'.') || (c == b')')) ≡ true → is_digit c ≡ false
dot_lem c h = ground arith

sign_lem : (c : ℕ) → is_bullet c ≡ true → is_space c ≡ false
sign_lem c h = ground arith

IsBullet-begins :
    (bullet later : Text) → IsBullet bullet → begins is_space (bullet ++ later) ≡ false
IsBullet-begins _ later (sign c h) = sign_lem c h
IsBullet-begins _ later (number [] c h n k) = cc
IsBullet-begins _ later (number (d ∷ digits) c h n k) =
    (digit_lem d (both (is_digit d) (all is_digit digits) h).0).1

take_bullet_complete :
    (bullet later : Text) → IsBullet bullet → take_bullet (bullet ++ later) ≡ some (bullet, later)
unfolding take_bullet take_numbered
take_bullet_complete _ later (sign c h) = rw h refl
take_bullet_complete _ later (number [] c h n k) = cc
take_bullet_complete _ later (number (d ∷ digits) c h n k) =
    ap take_bullet (append_assoc (d ∷ digits) (c ∷ []) later)
    ∙ rw (span-append is_digit (d ∷ digits) (c ∷ later) h (dot_lem c k))
        (rw (digit_lem d (both (is_digit d) (all is_digit digits) h).0).0 (rw k refl))

-- The marker is found one after the bracket.
pub marker_offset_complete :
    (front : Text) (mark : ℕ) (rest : Text)
    → IsTaskStart front
    → is_mark mark ≡ true
    → marker_offset (front ++ b'[' ∷ mark ∷ b']' ∷ rest) ≡ some (length front + 1)
unfolding marker_offset offset_after
marker_offset_complete front mark rest t m =
    let box : Text = b'[' ∷ mark ∷ b']' ∷ rest in
    let parts : front ++ box ≡ t.indent ++ (t.bullet ++ (t.gap ++ box)) =
      ap (λ u. u ++ box) t.is_front
      ∙ (append_assoc t.indent (t.bullet ++ t.gap) box
          ∙ ap (λ u. t.indent ++ u) (append_assoc t.bullet t.gap box)) in
    ap marker_offset parts
    ∙ (rw
          (span-append is_space t.indent (t.bullet ++ (t.gap ++ box)) t.indent_spaces
            (IsBullet-begins t.bullet (t.gap ++ box) t.bullet_one))
          (rw (take_bullet_complete t.bullet (t.gap ++ box) t.bullet_one)
            (rw (span-append is_space t.gap box t.gap_spaces refl) (rw (t.gap_some) (rw m refl))))
        ∙ ap some (sums t.indent t.bullet t.gap ∙ ap (λ u. length u + 1) (sym t.is_front)))
  where
    sums : (u v w : Text) → length u + length v + length w + 1 ≡ length (u ++ (v ++ w)) + 1
    sums u v w = ground (arith, length-append u (v ++ w), length-append v w)

-- The text of a line that is a task, up to its box and beyond, gives the place of its marker.
pub marker_of_complete :
    (before front rest : Text) (mark : ℕ)
    → at_line_start before ≡ true
    → IsTaskStart front
    → any (λ c. c == newline) front ≡ false
    → is_mark mark ≡ true
    → let markdown = before ++ (front ++ b'[' ∷ mark ∷ b']' ∷ rest) in
      marker_of markdown (get_line_starts markdown) (some (suc (newlines before)))
      ≡ some (length before + (length front + 1))
unfolding marker_of marker_in get_line_starts
marker_of_complete before front rest mark a t l m =
    let box : Text = b'[' ∷ mark ∷ b']' ∷ rest in
    let s = front ++ box in
    ap marker_in (
      get_line_info-some (before ++ s) (get_line_starts (before ++ s)) (newlines before)
        (length before) (length before + length (first_line s))
        (line_start_at 0 0 before s a ∙ ap some (start before))
        (ap (end_of (before ++ s)) (next_start_at 0 before s) ∙ end_of_line before s))
    ∙ ap (map_option (λ offset. length before + offset)) (
        ap marker_offset (
          slice-append before s (length (first_line s))
          ∙ (slice-first_line s ∙ (first_line-append front box l ∙ boxed)))
        ∙ marker_offset_complete front mark (first_line rest) t m)
  where
    start : (u : Text) → (if text_eq u [] then 0 else 0 + length u) ≡ length u
    start [] = refl
    start (c ∷ u) = omega arith

    mark_no_newline : (c : ℕ) → is_mark c ≡ true → (c == newline) ≡ false
    mark_no_newline c h = ground arith

    boxed :
        front ++ first_line (b'[' ∷ mark ∷ b']' ∷ rest)
        ≡ front ++ b'[' ∷ mark ∷ b']' ∷ first_line rest
    boxed = rw (mark_no_newline mark m) refl
