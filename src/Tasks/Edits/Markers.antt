-- ===== src/Tasks/Edits/Markers.antt =====
-- Where the markers are that are found in the lines of a text.
use memos_note.Common.{
  ◌==◌, if◌then◌else◌, Bool-cases, Option-cases, both, length, get_elem?, map_option-some, Text,
  text_eq, slice, is_space, span, span-append_parts, ℕ, zero, suc, ◌+◌, ◌-◌, ◌≤◌, ◌<◌, ◌≡◌, refl,
  sym, ap, ap₂, ◌∙◌, inl, inr, Bool, true, not, ◌&&◌, ◌||◌, Option, none, some, some-injective,
  List, [], ◌∷◌, ◌++◌, append_assoc, arith,
}
use memos_note.Tasks.Edits.{
  get_line_starts, end_of, get_line_info, is_digit, take_numbered, take_bullet, is_box,
  offset_after, marker_offset, marker_in, marker_of,
}
use memos_note.Tasks.Toggle.{is_bullet, is_mark}

get_elem?-append : (u v : Text) (k : ℕ) → get_elem? (u ++ v) (length u + k) ≡ get_elem? v k
get_elem?-append [] v k = ap (get_elem? v) (plus_zero k)
  where
    plus_zero : (k : ℕ) → 0 + k ≡ k
    plus_zero k = omega arith
get_elem?-append (a ∷ u) v k =
    ap (get_elem? (a ∷ (u ++ v))) (plus_suc (length u) k) ∙ get_elem?-append u v k
  where
    plus_suc : (m k : ℕ) → suc m + k ≡ suc (m + k)
    plus_suc m k = omega arith

get_elem?-slice :
    (s : Text) (a b k c : ℕ)
    → get_elem? (slice s a b) k ≡ some c
    → (get_elem? s (a + k) ≡ some c) × (a + k < b)
get_elem?-slice [] a b k c h = cc
get_elem?-slice (x ∷ s) a zero k c h = cc
get_elem?-slice (x ∷ s) zero (suc b) zero c h = (h, omega arith)
get_elem?-slice (x ∷ s) zero (suc b) (suc k) c h =
    let (e, l) = get_elem?-slice s 0 b k c h in
    (ap (get_elem? (x ∷ s)) (plus k) ∙ (ap (get_elem? s) (plus' k) ∙ e), omega arith)
  where
    plus : (k : ℕ) → 0 + suc k ≡ suc k
    plus k = omega arith

    plus' : (k : ℕ) → k ≡ 0 + k
    plus' k = omega arith
get_elem?-slice (x ∷ s) (suc a) (suc b) k c h =
    let (e, l) = get_elem?-slice s a b k c h in (ap (get_elem? (x ∷ s)) (plus a k) ∙ e, omega arith)
  where
    plus : (a k : ℕ) → suc a + k ≡ suc (a + k)
    plus a k = omega arith

pub get_elem?-bound : (s : Text) (k c : ℕ) → get_elem? s k ≡ some c → k < length s
get_elem?-bound [] k c h = cc
get_elem?-bound (x ∷ s) zero c h = omega arith
get_elem?-bound (x ∷ s) (suc k) c h = omega (arith, get_elem?-bound s k c h)

is_box-mark : (s : Text) → is_box s ≡ true → (c : ℕ) × (get_elem? s 1 ≡ some c) × (is_mark c ≡ true)
is_box-mark [] h = cc
is_box-mark (a ∷ []) h = cc
is_box-mark (a ∷ b ∷ []) h = cc
is_box-mark (a ∷ c ∷ b ∷ s) h = (c, refl, ground (arith, h))

take_numbered-parts :
    (digits s bullet rest : Text)
    → take_numbered digits s ≡ some (bullet, rest)
    → bullet ++ rest ≡ digits ++ s
unfolding take_numbered
take_numbered-parts digits [] bullet rest h = cc
take_numbered-parts digits (c ∷ s) bullet rest h = elim (Bool-cases ends) [
  | inl e ↦
      let parts = some-injective _ _ (ap (λ b. if b then found else none) (sym e) ∙ h) in
      sym (ap (λ u. u.0 ++ u.1) parts) ∙ append_assoc digits (c ∷ []) s
  | inr e ↦
      let no : ◌≡◌ {A = Option (Text × Text)} none (some (bullet, rest)) =
        ap (λ b. if b then found else none) (sym e) ∙ h in
      cc
]
  where
    ends : Bool
    ends = not (text_eq digits []) && ((c == b'.') || (c == b')'))

    found : Option (Text × Text)
    found = some (digits ++ c ∷ [], s)

take_bullet-parts :
    (s bullet rest : Text) → take_bullet s ≡ some (bullet, rest) → bullet ++ rest ≡ s
unfolding take_bullet
take_bullet-parts [] bullet rest h = cc
take_bullet-parts (c ∷ s) bullet rest h = elim (Bool-cases (is_bullet c)) [
  | inl e ↦
      let parts = some-injective _ _ (ap (λ b. if b then one else numbered) (sym e) ∙ h) in
      sym (ap (λ u. u.0 ++ u.1) parts)
  | inr e ↦
      take_numbered-parts (span is_digit (c ∷ s)).0 (span is_digit (c ∷ s)).1 bullet rest
        (ap (λ b. if b then one else numbered) (sym e) ∙ h)
      ∙ span-append_parts is_digit (c ∷ s)
]
  where
    one : Option (Text × Text)
    one = some (c ∷ [], s)

    numbered : Option (Text × Text)
    numbered = take_numbered (span is_digit (c ∷ s)).0 (span is_digit (c ∷ s)).1

abbrev HasMark : Text → ℕ → Type 0
HasMark s k = (c : ℕ) × (get_elem? s k ≡ some c) × (is_mark c ≡ true)

offset_after-mark :
    (indent bullet rest : Text) (offset : ℕ)
    → offset_after indent (some (bullet, rest)) ≡ some offset
    → HasMark (indent ++ (bullet ++ rest)) offset
unfolding offset_after
offset_after-mark indent bullet rest offset h = elim (Bool-cases ends) [
  | inl e ↦
      let (c, at, m) = is_box-mark later (both (not (text_eq gap [])) (is_box later) e).1 in
      let same =
        some-injective place offset (ap (λ b. if b then some place else none) (sym e) ∙ h) in
      (
        c,
        ap₂ get_elem? parts (sym same ∙ sums (length indent) (length bullet) (length gap))
            ∙ (get_elem?-append indent (bullet ++ (gap ++ later)) _
                ∙ (get_elem?-append bullet (gap ++ later) _ ∙ (get_elem?-append gap later 1 ∙ at))),
        m,
      )
  | inr e ↦
      let no : ◌≡◌ {A = Option ℕ} none (some offset) =
        ap (λ b. if b then some place else none) (sym e) ∙ h in
      cc
]
  where
    gap : Text
    gap = (span is_space rest).0

    later : Text
    later = (span is_space rest).1

    ends : Bool
    ends = not (text_eq gap []) && is_box later

    place : ℕ
    place = length indent + length bullet + length gap + 1

    sums : (i b g : ℕ) → i + b + g + 1 ≡ i + (b + (g + 1))
    sums i b g = omega arith

    parts : indent ++ (bullet ++ rest) ≡ indent ++ (bullet ++ (gap ++ later))
    parts = ap (λ u. indent ++ (bullet ++ u)) (sym (span-append_parts is_space rest))

-- An offset that is found is that of a mark.
marker_offset-mark :
    (line : Text) (offset : ℕ) → marker_offset line ≡ some offset → HasMark line offset
unfolding marker_offset
marker_offset-mark line offset h = elim (Option-cases (take_bullet rest)) [
  | inl e ↦
      let no : ◌≡◌ {A = Option ℕ} none (some offset) = ap (offset_after indent) (sym e) ∙ h in cc
  | inr (t, e) ↦
      let (c, at, m) =
        offset_after-mark indent t.0 t.1 offset (ap (offset_after indent) (sym e) ∙ h) in
      (
        c,
        ap (λ u. get_elem? u offset)
              (sym (span-append_parts is_space line)
                ∙ ap (λ u. indent ++ u) (sym (take_bullet-parts rest t.0 t.1 e)))
            ∙ at,
        m,
      )
]
  where
    indent : Text
    indent = (span is_space line).0

    rest : Text
    rest = (span is_space line).1

-- What is known of a marker that is found in a line: it is a mark of the text, at or after the start
-- of its line and before the start of the next.
pub record IsMarker (markdown : Text) (line place : ℕ) : Type 0 where
  pub mark : ℕ
  pub is_mark_at : get_elem? markdown place ≡ some mark
  pub mark_one : is_mark mark ≡ true
  pub line_start : ℕ
  pub starts_at : get_elem? (get_line_starts markdown) line ≡ some line_start
  pub after : line_start ≤ place
  pub before : (b : ℕ) → get_elem? (get_line_starts markdown) (suc line) ≡ some b → suc place ≤ b

pub marker_of-IsMarker :
    (markdown : Text) (line place : ℕ)
    → marker_of markdown (get_line_starts markdown) (some (suc line)) ≡ some place
    → IsMarker markdown line place
unfolding marker_of get_line_info marker_in
marker_of-IsMarker markdown line place h =
    elim (Option-cases (get_elem? (get_line_starts markdown) line)) [
      | inl e ↦ let no : ◌≡◌ {A = Option ℕ} none (some place) = ap found (sym e) ∙ h in cc
      | inr (a, e) ↦ at_start a e (
          map_option-some (λ o. a + o) (marker_offset (slice markdown a stop)) place
            (ap found (sym e) ∙ h))
    ]
  where
    starts : List ℕ
    starts = get_line_starts markdown

    stop : ℕ
    stop = end_of markdown (get_elem? starts (suc line))

    found : Option ℕ → Option ℕ
    found o = marker_in (elim o [
      | none ↦ none
      | some start ↦
          some
            (record { text = slice markdown start stop; start_offset = start; end_offset = stop })
    ])

    below : (a o m b : ℕ) → a + o < stop → a + o ≡ m → stop ≡ b - 1 → suc m ≤ b
    below a o m b h k l = omega arith

    from_start : (a o m : ℕ) → a + o ≡ m → a ≤ m
    from_start a o m h = omega arith

    at_start :
        (a : ℕ)
        → get_elem? starts line ≡ some a
        → (o : ℕ) × (marker_offset (slice markdown a stop) ≡ some o) × (a + o ≡ place)
        → IsMarker markdown line place
    at_start a e (o, found_at, sum) =
        let (c, at, m) = marker_offset-mark (slice markdown a stop) o found_at in
        let (at', inside) = get_elem?-slice markdown a stop o c at in
        record {
          mark = c;
          is_mark_at = ap (get_elem? markdown) (sym sum) ∙ at';
          mark_one = m;
          line_start = a;
          starts_at = e;
          after = from_start a o place sum;
          before = λ b e'. below a o place b inside sum (ap (end_of markdown) e');
        }
