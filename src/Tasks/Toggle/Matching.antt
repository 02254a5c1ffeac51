-- ===== src/Tasks/Toggle/Matching.antt =====
-- What the pattern of a task line matches.
use memos_note.Common.{
  if◌then◌else◌, Bool-cases, Option-cases, both, any, all, map_option, map_option-some, Text,
  text_eq, is_space, is_blank, span, span-append_parts, span-all, span-append, any-append,
  span-append_rest, any-span, ℕ, ◌≡◌, refl, sym, ap, ap₂, ◌∙◌, inl, inr, Bool, true, false, not,
  ◌&&◌, ◌||◌, Option, none, some, some-injective, [], ◌∷◌, ◌++◌, append-nil, append_assoc, arith,
}
use memos_note.Tasks.Toggle.{
  is_bullet, is_mark, ends_line, is_suffix, after_box, after_indent, match_task, box,
}

-- `^(\s*[-*+]\s+)\[([ xX])\](\s+.*)$` of a line with its first and its third group.
pub record IsTask (line prefix suffix : Text) : Type 0 where
  pub indent : Text
  pub bullet : ℕ
  pub gap : Text
  pub mark : ℕ
  pub space : Text
  pub rest : Text
  pub is_line : line ≡ prefix ++ b'[' ∷ mark ∷ b']' ∷ suffix
  pub is_prefix : prefix ≡ indent ++ bullet ∷ gap
  pub is_end : suffix ≡ space ++ rest
  pub indent_spaces : all is_space indent ≡ true
  pub bullet_one : is_bullet bullet ≡ true
  pub gap_spaces : all is_space gap ≡ true
  pub gap_some : text_eq gap [] ≡ false
  pub mark_one : is_mark mark ≡ true
  pub space_spaces : all is_space space ≡ true
  pub space_some : text_eq space [] ≡ false
  pub rest_dots : any ends_line rest ≡ false

bullet_no_space : (c : ℕ) → is_bullet c ≡ true → is_space c ≡ false
bullet_no_space c h = ground arith

after_box_lem :
    (mark : ℕ) (suffix : Text)
    → is_mark mark ≡ true
    → after_box (b'[' ∷ mark ∷ b']' ∷ suffix) ≡ (if is_suffix suffix then some suffix else none)
unfolding after_box
after_box_lem mark suffix m = rw m refl

is_suffix_complete :
    (space rest : Text)
    → all is_space space ≡ true
    → text_eq space [] ≡ false
    → any ends_line rest ≡ false
    → is_suffix (space ++ rest) ≡ true
is_suffix_complete [] rest h n k = cc
is_suffix_complete (a ∷ space) rest h n k =
    let (a', h') = both (is_space a) (all is_space space) h in
    let dots = any-span is_space ends_line rest k in
    rw a' (rw (span-append_rest is_space space rest h') (ap not dots))

after_indent_lem :
    (bullet : ℕ) (gap : Text) (mark : ℕ) (suffix : Text)
    → is_bullet bullet ≡ true
    → all is_space gap ≡ true
    → text_eq gap [] ≡ false
    → is_mark mark ≡ true
    → after_indent (bullet ∷ (gap ++ b'[' ∷ mark ∷ b']' ∷ suffix))
      ≡ map_option (λ t. (bullet ∷ gap, t)) (if is_suffix suffix then some suffix else none)
unfolding after_indent
after_indent_lem bullet gap mark suffix b g n m =
    rw (span-append is_space gap (b'[' ∷ mark ∷ b']' ∷ suffix) g refl)
      (rw b (rw n (ap (map_option (λ t. (bullet ∷ gap, t))) (after_box_lem mark suffix m))))

-- A line up to the box as in the pattern: it matches exactly if the rest of it does.
match_task_lem :
    (line prefix suffix later : Text)
    → IsTask line prefix suffix
    → match_task (line ++ later)
      ≡ (if is_suffix (suffix ++ later) then some (prefix, suffix ++ later) else none)
unfolding match_task
match_task_lem line prefix suffix later t =
    let box = b'[' ∷ t.mark ∷ b']' ∷ (suffix ++ later) in
    let parts : line ++ later ≡ t.indent ++ t.bullet ∷ (t.gap ++ box) =
      ap (λ u. u ++ later) t.is_line
      ∙ (append_assoc prefix (b'[' ∷ t.mark ∷ b']' ∷ suffix) later
          ∙ (ap (λ u. u ++ box) t.is_prefix ∙ append_assoc t.indent (t.bullet ∷ t.gap) box)) in
    ap match_task parts
    ∙ (rw
          (span-append is_space t.indent (t.bullet ∷ (t.gap ++ box)) t.indent_spaces
            (bullet_no_space t.bullet t.bullet_one))
          (ap (map_option {A = Text × Text} {B = Text × Text} (λ u. (t.indent ++ u.0, u.1))) (
            after_indent_lem t.bullet t.gap t.mark (suffix ++ later) t.bullet_one t.gap_spaces
              t.gap_some t.mark_one))
        ∙ (both_cases (is_suffix (suffix ++ later)) t.indent (t.bullet ∷ t.gap) (suffix ++ later)
            ∙ ap (λ u. if is_suffix (suffix ++ later) then some (u, suffix ++ later) else none)
                (sym t.is_prefix)))
  where
    both_cases :
        (b : Bool) (indent front suffix : Text)
        → map_option {A = Text × Text} {B = Text × Text}
            (λ u. (indent ++ u.0, u.1))
            (map_option (λ t. (front, t)) (if b then some suffix else none))
          ≡ (if b then some (indent ++ front, suffix) else none)
    both_cases true indent front suffix = refl
    both_cases false indent front suffix = refl

pub match_task_complete :
    (line prefix suffix : Text)
    → IsTask line prefix suffix
    → match_task line ≡ some (prefix, suffix)
match_task_complete line prefix suffix t =
    let ends : is_suffix (suffix ++ []) ≡ true =
      ap is_suffix (append-nil suffix ∙ t.is_end)
      ∙ is_suffix_complete t.space t.rest t.space_spaces t.space_some t.rest_dots in
    ap match_task (sym (append-nil line))
    ∙ (match_task_lem line prefix suffix [] t
        ∙ (ap (λ b. if b then some (prefix, suffix ++ []) else none) ends
            ∙ ap (λ u. some (prefix, u)) (append-nil suffix)))

blank_before_return :
    (s : Text) → is_blank s ≡ false → any ends_line (span is_space (s ++ 13 ∷ [])).1 ≡ true
blank_before_return [] h = cc
blank_before_return (a ∷ s) h = elim (Bool-cases (is_space a)) [
  | inl e ↦ rw e (blank_before_return s (ap (λ b. b && is_blank s) (sym e) ∙ h))
  | inr e ↦ rw e (any-append ends_line (a ∷ s) (13 ∷ []) ∙ or_true (any ends_line (a ∷ s)))
]
  where
    or_true : (b : Bool) → (b || true) ≡ true
    or_true true = refl
    or_true false = refl

is_suffix-return :
    (suffix : Text)
    → is_suffix suffix ≡ true
    → is_blank suffix ≡ false
    → is_suffix (suffix ++ 13 ∷ []) ≡ false
is_suffix-return [] h k = cc
is_suffix-return (c ∷ s) h k =
    let (a, _) = both (is_space c) (not (any ends_line (span is_space s).1)) h in
    rw a (ap not (blank_before_return s (ap (λ b. b && is_blank s) (sym a) ∙ k)))

pub match_task-return :
    (line prefix suffix : Text)
    → IsTask line prefix suffix
    → is_blank suffix ≡ false
    → match_task (line ++ 13 ∷ []) ≡ none
match_task-return line prefix suffix t k =
    let ends : is_suffix suffix ≡ true =
      ap is_suffix t.is_end
      ∙ is_suffix_complete t.space t.rest t.space_spaces t.space_some t.rest_dots in
    match_task_lem line prefix suffix (13 ∷ []) t
    ∙ ap (λ b. if b then some (prefix, suffix ++ 13 ∷ []) else none)
        (is_suffix-return suffix ends k)

after_box_sound :
    (s suffix : Text)
    → after_box s ≡ some suffix
    → (mark : ℕ) × (s ≡ b'[' ∷ mark ∷ b']' ∷ suffix)
      × (is_mark mark ≡ true)
      × (is_suffix suffix ≡ true)
unfolding after_box
after_box_sound (a ∷ c ∷ b ∷ s) suffix h =
    (c, ground (arith, h), ground (arith, h), ground (arith, h))
after_box_sound s suffix h = cc

-- `[-*+]\s+\[([ xX])\](\s+.*)$` from the bullet on.
record IsBulleted (s front suffix : Text) : Type 0 where
  bullet : ℕ
  gap : Text
  mark : ℕ
  is_whole : s ≡ bullet ∷ (gap ++ b'[' ∷ mark ∷ b']' ∷ suffix)
  is_front : front ≡ bullet ∷ gap
  bullet_one : is_bullet bullet ≡ true
  gap_spaces : all is_space gap ≡ true
  gap_some : text_eq gap [] ≡ false
  mark_one : is_mark mark ≡ true
  suffix_end : is_suffix suffix ≡ true

after_indent_sound :
    (s front suffix : Text) → after_indent s ≡ some (front, suffix) → IsBulleted s front suffix
unfolding after_indent
after_indent_sound [] front suffix h = cc
after_indent_sound (c ∷ s) front suffix h = elim (Bool-cases found) [
  | inr e ↦
      let no : ◌≡◌ {A = Option (Text × Text)} none (some (front, suffix)) =
        ap (λ b. if b then whole else none) (sym e) ∙ h in
      cc
  | inl e ↦
      let (t, box_eq, parts) =
        map_option-some (λ t. (c ∷ gap, t)) (after_box rest) (front, suffix)
          (ap (λ b. if b then whole else none) (sym e) ∙ h) in
      let (mark, rest_eq, m, ends) = after_box_sound rest t box_eq in
      let same : t ≡ suffix = ap (λ u. u.1) parts in
      let (b, g) = both (is_bullet c) (not (text_eq gap [])) e in
      record {
        bullet = c;
        gap = gap;
        mark = mark;
        is_whole =
            ap (λ u. c ∷ u)
              (sym (span-append_parts is_space s)
                ∙ (ap (λ u. gap ++ u) rest_eq ∙ ap (λ u. gap ++ b'[' ∷ mark ∷ b']' ∷ u) same));
        is_front = sym (ap (λ u. u.0) parts);
        bullet_one = b;
        gap_spaces = span-all is_space s;
        gap_some = ground (arith, g);
        mark_one = m;
        suffix_end = sym (ap is_suffix same) ∙ ends;
      }
]
  where
    gap : Text
    gap = (span is_space s).0

    rest : Text
    rest = (span is_space s).1

    found : Bool
    found = is_bullet c && not (text_eq gap [])

    whole : Option (Text × Text)
    whole = map_option (λ t. (c ∷ gap, t)) (after_box rest)

is_suffix_sound :
    (s : Text)
    → is_suffix s ≡ true
    → (text_eq (span is_space s).0 [] ≡ false) × (any ends_line (span is_space s).1 ≡ false)
is_suffix_sound [] h = cc
is_suffix_sound (c ∷ s) h =
    let (a, k) = both (is_space c) (not (any ends_line (span is_space s).1)) h in
    rw a (refl, ground (arith, k))

pub match_task_sound :
    (line prefix suffix : Text)
    → match_task line ≡ some (prefix, suffix)
    → IsTask line prefix suffix
unfolding match_task
match_task_sound line prefix suffix h = elim (Option-cases (after_indent (span is_space line).1)) [
  | inl e ↦
      let no : ◌≡◌ {A = Option (Text × Text)} none (some (prefix, suffix)) =
        ap (map_option put) (sym e) ∙ h in
      cc
  | inr (t, e) ↦
      found t (after_indent_sound (span is_space line).1 t.0 t.1 e)
        (some-injective _ _ (ap (map_option put) (sym e) ∙ h))
]
  where
    put : Text × Text → Text × Text
    put t = ((span is_space line).0 ++ t.0, t.1)

    found :
        (t : Text × Text)
        → IsBulleted (span is_space line).1 t.0 t.1
        → put t ≡ (prefix, suffix)
        → IsTask line prefix suffix
    found t b parts =
        let indent = (span is_space line).0 in
        let same : t.1 ≡ suffix = ap (λ u. u.1) parts in
        let front : prefix ≡ indent ++ b.bullet ∷ b.gap =
          sym (ap (λ u. u.0) parts) ∙ ap (λ u. indent ++ u) b.is_front in
        let (some_space, dots) = is_suffix_sound suffix (sym (ap is_suffix same) ∙ b.suffix_end) in
        record {
          indent = indent;
          bullet = b.bullet;
          gap = b.gap;
          mark = b.mark;
          space = (span is_space suffix).0;
          rest = (span is_space suffix).1;
          is_line =
              sym (span-append_parts is_space line)
              ∙ (ap (λ u. indent ++ u) b.is_whole
                  ∙ (sym (append_assoc indent (b.bullet ∷ b.gap) (b'[' ∷ b.mark ∷ b']' ∷ t.1))
                      ∙ ap₂ (λ u v. u ++ b'[' ∷ b.mark ∷ b']' ∷ v) (sym front) same));
          is_prefix = front;
          is_end = sym (span-append_parts is_space suffix);
          indent_spaces = span-all is_space line;
          bullet_one = b.bullet_one;
          gap_spaces = b.gap_spaces;
          gap_some = b.gap_some;
          mark_one = b.mark_one;
          space_spaces = span-all is_space suffix;
          space_some = some_space;
          rest_dots = dots;
        }

pub IsTask-box :
    (checked : Bool) (line prefix suffix : Text)
    → IsTask line prefix suffix
    → IsTask (prefix ++ box checked suffix) prefix suffix
unfolding box
IsTask-box checked line prefix suffix t = record {
  indent = t.indent;
  bullet = t.bullet;
  gap = t.gap;
  mark = if checked then b'x' else b' ';
  space = t.space;
  rest = t.rest;
  is_line = refl;
  is_prefix = t.is_prefix;
  is_end = t.is_end;
  indent_spaces = t.indent_spaces;
  bullet_one = t.bullet_one;
  gap_spaces = t.gap_spaces;
  gap_some = t.gap_some;
  mark_one = marked checked;
  space_spaces = t.space_spaces;
  space_some = t.space_some;
  rest_dots = t.rest_dots;
}
  where
    marked : (b : Bool) → is_mark (if b then b'x' else b' ') ≡ true
    marked true = refl
    marked false = refl
