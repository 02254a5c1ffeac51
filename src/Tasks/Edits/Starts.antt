-- ===== src/Tasks/Edits/Starts.antt =====
-- The lines of a text by where they start, and one of them as a slice.
use memos_note.Common.{
  ◌==◌, if◌then◌else◌, Bool-cases, neither, length, get_elem?, length-append, any, Text, text_eq,
  slice, ℕ, suc, ◌+◌, ◌-◌, ◌≡◌, refl, sym, ap, ◌∙◌, ◌⊎◌, inl, inr, Bool, true, false, none, some,
  List, [], ◌∷◌, ◌++◌, arith,
}
use memos_note.Tasks.Edits.{line_starts_from, end_of, get_line_info}
use memos_note.Tasks.Toggle.{newline}

-- How many lines end in a text, and whether what follows it begins a line.
abbrev pub newlines : Text → ℕ
newlines [] = 0
newlines (c ∷ s) = (if c == newline then 1 else 0) + newlines s

abbrev pub at_line_start : Text → Bool
at_line_start [] = true
at_line_start (c ∷ []) = c == newline
at_line_start (c ∷ d ∷ s) = at_line_start (d ∷ s)

one_plus : (n : ℕ) → 1 + n ≡ suc n
one_plus n = omega arith

zero_plus : (n : ℕ) → 0 + n ≡ n
zero_plus n = omega arith

plus_zero : (n : ℕ) → n ≡ n + 0
plus_zero n = omega arith

pub line_start_at :
    (j i : ℕ) (before s : Text)
    → at_line_start before ≡ true
    → get_elem? (j ∷ line_starts_from i (before ++ s)) (newlines before)
      ≡ some (if text_eq before [] then j else i + length before)
unfolding line_starts_from
line_start_at j i [] s h = refl
line_start_at j i (c ∷ []) s h = rw h (ap some (plus_one i))
  where
    plus_one : (i : ℕ) → suc i ≡ i + 1
    plus_one i = omega arith
line_start_at j i (c ∷ d ∷ before) s h = elim (Bool-cases (c == newline)) [
  | inl e ↦ rw e (
      ap (get_elem? (j ∷ suc i ∷ line_starts_from (suc i) (d ∷ (before ++ s))))
        (one_plus (newlines (d ∷ before)))
      ∙ (line_start_at (suc i) (suc i) (d ∷ before) s h ∙ ap some (shift i (length before))))
  | inr e ↦ rw e (
      ap (get_elem? (j ∷ line_starts_from (suc i) (d ∷ (before ++ s))))
        (zero_plus (newlines (d ∷ before)))
      ∙ (line_start_at j (suc i) (d ∷ before) s h ∙ ap some (shift i (length before))))
]
  where
    shift : (i n : ℕ) → suc i + suc n ≡ i + suc (suc n)
    shift i n = omega arith

pub next_start_at :
    (i : ℕ) (before s : Text)
    → get_elem? (line_starts_from i (before ++ s)) (newlines before)
      ≡ get_elem? (line_starts_from (i + length before) s) 0
unfolding line_starts_from
next_start_at i [] s = ap (λ n. get_elem? (line_starts_from n s) 0) (plus_zero i)
next_start_at i (c ∷ before) s = elim (Bool-cases (c == newline)) [
  | inl e ↦ rw e (
      ap (get_elem? (suc i ∷ line_starts_from (suc i) (before ++ s))) (one_plus (newlines before))
      ∙ (next_start_at (suc i) before s
          ∙ ap (λ n. get_elem? (line_starts_from n s) 0) (shift i (length before))))
  | inr e ↦ rw e (
      ap (get_elem? (line_starts_from (suc i) (before ++ s))) (zero_plus (newlines before))
      ∙ (next_start_at (suc i) before s
          ∙ ap (λ n. get_elem? (line_starts_from n s) 0) (shift i (length before))))
]
  where
    shift : (i n : ℕ) → suc i + n ≡ i + suc n
    shift i n = omega arith

-- A text up to its first line feed.
abbrev pub first_line : Text → Text
first_line [] = []
first_line (c ∷ s) = let rest = c ∷ first_line s in if c == newline then [] else rest

pub first_line-append :
    (u v : Text) → any (λ c. c == newline) u ≡ false → first_line (u ++ v) ≡ u ++ first_line v
first_line-append [] v h = refl
first_line-append (c ∷ u) v h =
    let (a, b) = neither (c == newline) (any (λ c. c == newline) u) h in
    rw a (ap (λ t. c ∷ t) (first_line-append u v b))

first_start :
    (i : ℕ) (s : Text)
    → ((get_elem? (line_starts_from i s) 0 ≡ none) × (first_line s ≡ s))
      ⊎ (get_elem? (line_starts_from i s) 0 ≡ some (suc (i + length (first_line s))))
unfolding line_starts_from
first_start i [] = inl (refl, refl)
first_start i (c ∷ s) = elim (Bool-cases (c == newline)) [
  | inl e ↦ rw e (inr (ap (λ n. some (suc n)) (plus_zero i)))
  | inr e ↦ elim (first_start (suc i) s) [
    | inl (h, k) ↦ rw e (inl (h, ap (λ t. c ∷ t) k))
    | inr h ↦ rw e (inr (h ∙ ap some (shift i (length (first_line s)))))
  ]
]
  where
    shift : (i n : ℕ) → suc (suc i + n) ≡ suc (i + suc n)
    shift i n = omega arith

pub slice-append :
    (before s : Text) (n : ℕ)
    → slice (before ++ s) (length before) (length before + n) ≡ slice s 0 n
slice-append [] s n = ap (slice s 0) (zero_plus n)
slice-append (a ∷ before) s n =
    ap (slice (a ∷ (before ++ s)) (suc (length before))) (shift (length before) n)
    ∙ slice-append before s n
  where
    shift : (m n : ℕ) → suc m + n ≡ suc (m + n)
    shift m n = omega arith

pub slice-first_line : (s : Text) → slice s 0 (length (first_line s)) ≡ first_line s
slice-first_line [] = refl
slice-first_line (c ∷ s) = elim (Bool-cases (c == newline)) [
  | inl e ↦ rw e refl
  | inr e ↦ rw e (ap (λ t. c ∷ t) (slice-first_line s))
]

pub end_of_line :
    (before s : Text)
    → end_of (before ++ s) (get_elem? (line_starts_from (0 + length before) s) 0)
      ≡ length before + length (first_line s)
unfolding end_of
end_of_line before s = elim (first_start (0 + length before) s) [
  | inl (h, k) ↦ rw h (length-append before s ∙ ap (λ t. length before + length t) (sym k))
  | inr h ↦ rw h (last (length before) (length (first_line s)))
]
  where
    last : (m n : ℕ) → suc (0 + m + n) - 1 ≡ m + n
    last m n = omega arith

pub get_line_info-some :
    (markdown : Text) (starts : List ℕ) (line start stop : ℕ)
    → get_elem? starts line ≡ some start
    → end_of markdown (get_elem? starts (suc line)) ≡ stop
    → get_line_info markdown starts line
      ≡ some (record { text = slice markdown start stop; start_offset = start; end_offset = stop })
unfolding get_line_info
get_line_info-some markdown starts line start stop h k =
    ap
      (λ o. elim o [
        | none ↦ none
        | some start ↦
            let stop = end_of markdown (get_elem? starts (suc line)) in
            some
              (record { text = slice markdown start stop; start_offset = start; end_offset = stop })
      ])
      h
    ∙ ap
        (λ n. some (record { text = slice markdown start n; start_offset = start; end_offset = n }))
        k
