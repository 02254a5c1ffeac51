-- ===== src/Tasks/Edits/Pointwise.antt =====
-- What edits of one character each do to each character of a text.
use memos_note.Common.{
  leb, ◌==◌, if◌then◌else◌, Bool-cases, Bool_eq, length, get_elem?, set, length-set, take, drop,
  any, All, Text, ℕ, zero, suc, ◌≤◌, ◌<◌, ◌≡◌, refl, ap, ap₂, ◌∙◌, inl, inr, Bool, true, false, not,
  ◌&&◌, ◌||◌, Option, some, List, [], ◌∷◌, ◌++◌, arith,
}
use memos_note.Tasks.Edits.{
  MarkdownEdit, ParsedTaskItem, insert_edit, sort_edits, fits, splice, splice_all,
  apply_markdown_edits, marker, edits_of,
}
use memos_note.Tasks.Edits.Splicing.{fits-cons, applied}

-- An edit that puts one character in the place of one.
abbrev IsUnit : ℕ → MarkdownEdit → Type 0
IsUnit mark e = (e.end ≡ suc e.start) × (e.replacement ≡ mark ∷ [])

splice-set :
    (e : MarkdownEdit) (mark : ℕ) (s : Text)
    → IsUnit mark e
    → e.start < length s
    → splice e s ≡ set s e.start mark
splice-set e mark s (stop, one) h =
    ap₂ (λ n r. take e.start s ++ r ++ drop n s) stop one ∙ go e.start s h
  where
    go : (n : ℕ) (s : Text) → n < length s → take n s ++ mark ∷ [] ++ drop (suc n) s ≡ set s n mark
    go n [] h = elim h [ ]
    go zero (a ∷ s) h = refl
    go (suc n) (a ∷ s) h = ap (λ r. a ∷ r) (go n s (omega arith))

get_elem?-set :
    (s : Text) (n c k : ℕ)
    → n < length s
    → get_elem? (set s n c) k ≡ (if n == k then some c else get_elem? s k)
get_elem?-set [] n c k h = elim h [ ]
get_elem?-set (a ∷ s) zero c zero h = ground arith
get_elem?-set (a ∷ s) zero c (suc k) h = ground arith
get_elem?-set (a ∷ s) (suc n) c zero h = ground arith
get_elem?-set (a ∷ s) (suc n) c (suc k) h = get_elem?-set s n c k (omega arith) ∙ ground arith

-- Edits of one character each that fit: each is done, and all else is kept.
splice_all-unit :
    (markdown : Text) (mark at : ℕ) (es : List MarkdownEdit)
    → All (IsUnit mark) es
    → fits markdown at es ≡ true
    → (length (splice_all es markdown) ≡ length markdown)
      × ((k : ℕ)
          → get_elem? (splice_all es markdown) k
            ≡ (if any (λ e. e.start == k) es then some mark else get_elem? markdown k))
unfolding splice_all
splice_all-unit markdown mark at [] u h = (refl, λ k. refl)
splice_all-unit markdown mark at (e ∷ es) (u, us) h =
    let (a, b, c, d) = fits-cons markdown at e es h in
    let (same_length, same) = splice_all-unit markdown mark e.end es us d in
    let inside : e.start < length (splice_all es markdown) =
      room e.start e.end (length markdown) _ u.0 c same_length in
    (
      ap length (splice-set e mark (splice_all es markdown) u inside)
          ∙ (length-set (splice_all es markdown) e.start mark ∙ same_length),
      λ k.
          ap (λ s. get_elem? s k) (splice-set e mark (splice_all es markdown) u inside)
          ∙ (get_elem?-set (splice_all es markdown) e.start mark k inside
              ∙ (ap (λ o. if e.start == k then some mark else o) (same k)
                  ∙ two_tests (e.start == k) (any (λ f. f.start == k) es) (some mark)
                      (get_elem? markdown k))),
    )
  where
    room : (start stop n m : ℕ) → stop ≡ suc start → stop ≤ n → m ≡ n → start < m
    room start stop n m e h k = omega arith

    two_tests :
        (p q : Bool) (x y : Option ℕ)
        → (if p then x else (if q then x else y)) ≡ (if p || q then x else y)
    two_tests true q x y = refl
    two_tests false q x y = refl

any-insert_edit :
    (p : MarkdownEdit → Bool) (e : MarkdownEdit) (es : List MarkdownEdit)
    → any p (insert_edit e es) ≡ (p e || any p es)
unfolding insert_edit
any-insert_edit p e [] = refl
any-insert_edit p e (f ∷ fs) = ground (arith, any-insert_edit p e fs)

any-sort_edits :
    (p : MarkdownEdit → Bool) (es : List MarkdownEdit) → any p (sort_edits es) ≡ any p es
unfolding sort_edits
any-sort_edits p [] = refl
any-sort_edits p (e ∷ es) =
    any-insert_edit p e (sort_edits es) ∙ ap (λ b. p e || b) (any-sort_edits p es)

All-insert_edit :
    (mark : ℕ) (e : MarkdownEdit) (es : List MarkdownEdit)
    → IsUnit mark e
    → All (IsUnit mark) es
    → All (IsUnit mark) (insert_edit e es)
unfolding insert_edit
All-insert_edit mark e [] h hs = (h, tt)
All-insert_edit mark e (f ∷ fs) h (k, ks) = elim (Bool-cases (leb e.start f.start)) [
  | inl l ↦ rw l (h, (k, ks))
  | inr l ↦ rw l (k, All-insert_edit mark e fs h ks)
]

All-sort_edits :
    (mark : ℕ) (es : List MarkdownEdit) → All (IsUnit mark) es → All (IsUnit mark) (sort_edits es)
unfolding sort_edits
All-sort_edits mark [] h = tt
All-sort_edits mark (e ∷ es) (h, hs) =
    All-insert_edit mark e (sort_edits es) h (All-sort_edits mark es hs)

edits_of-IsUnit :
    (checked : Bool) (ts : List ParsedTaskItem)
    → All (IsUnit (marker checked)) (edits_of checked ts)
unfolding edits_of
edits_of-IsUnit checked [] = tt
edits_of-IsUnit checked (t ∷ ts) = elim (Bool-cases (Bool_eq t.checked checked)) [
  | inl h ↦ rw h (edits_of-IsUnit checked ts)
  | inr h ↦ rw h ((refl, refl), edits_of-IsUnit checked ts)
]

-- A task that is to be set has its marker at a position.
abbrev pub is_to_set : Bool → ℕ → ParsedTaskItem → Bool
is_to_set checked k t = not (Bool_eq t.checked checked) && (t.marker_start == k)

any-edits_of :
    (checked : Bool) (k : ℕ) (ts : List ParsedTaskItem)
    → any (λ e. e.start == k) (edits_of checked ts) ≡ any (is_to_set checked k) ts
unfolding edits_of
any-edits_of checked k [] = refl
any-edits_of checked k (t ∷ ts) = elim (Bool-cases (Bool_eq t.checked checked)) [
  | inl h ↦ rw h (any-edits_of checked k ts)
  | inr h ↦ rw h (ap (λ b. (t.marker_start == k) || b) (any-edits_of checked k ts))
]

-- The pointwise result when the edits fit.
pub apply-edits_of :
    (markdown : Text) (checked : Bool) (ts : List ParsedTaskItem) (k : ℕ)
    → fits markdown 0 (sort_edits (edits_of checked ts)) ≡ true
    → get_elem? (apply_markdown_edits markdown (edits_of checked ts)) k
      ≡ (if any (is_to_set checked k) ts then some (marker checked) else get_elem? markdown k)
apply-edits_of markdown checked ts k h =
    ap (λ s. get_elem? s k)
      (applied markdown (edits_of checked ts)
        ∙ ap (λ b. if b then splice_all (sort_edits (edits_of checked ts)) markdown else markdown)
            h)
    ∙ ((splice_all-unit markdown (marker checked) 0 (sort_edits (edits_of checked ts))
            (All-sort_edits (marker checked) (edits_of checked ts) (edits_of-IsUnit checked ts))
            h).1
          k
        ∙ ap (λ b. if b then some (marker checked) else get_elem? markdown k)
            (any-sort_edits (λ e. e.start == k) (edits_of checked ts) ∙ any-edits_of checked k ts))
