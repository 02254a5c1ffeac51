-- ===== src/Memos/Sorting/Hoisting.antt =====
-- A memo of a name put first: which memo is first then, and that all memos are kept.
use memos_note.Common.{
  if◌then◌else◌, Bool-cases, Option-cases, length, or_else, any, filter, map_option,
  map_option-some, Text, text_eq, text_eq_sound, ℕ, ◌+◌, ◌≡◌, refl, sym, ap, ◌∙◌, inl, inr, Bool,
  true, false, not, ◌&&◌, Option, none, some, some-injective, List, [], ◌∷◌, arith,
}
use memos_note.Api.{Memo}
use memos_note.Memos.Sorting.{take_out, put_first, hoist_memo_to_front}

abbrev pub count : (Memo → Bool) → List Memo → ℕ
count p memos = length (filter p memos)

pub count-cons :
    (p : Memo → Bool) (m : Memo) (memos : List Memo)
    → count p (m ∷ memos) ≡ (if p m then 1 else 0) + count p memos
count-cons p m memos = ground arith

count-swap :
    (p : Memo → Bool) (m n : Memo) (memos : List Memo)
    → count p (m ∷ n ∷ memos) ≡ count p (n ∷ m ∷ memos)
count-swap p m n memos = ground arith

count-take_out :
    (name : Text) (memos : List Memo) (p : Memo → Bool) (r : Memo × List Memo)
    → take_out name memos ≡ some r
    → count p (r.0 ∷ r.1) ≡ count p memos
unfolding take_out
count-take_out name [] p r h = cc
count-take_out name (m ∷ memos) p r h = elim (Bool-cases (text_eq m.name name)) [
  | inl e ↦ rw (sym (some-injective (m, memos) r (ap found (sym e) ∙ h))) refl
  | inr e ↦
      let (q, f, same) = map_option-some put (take_out name memos) r (ap found (sym e) ∙ h) in
      ap (λ t. count p (t.0 ∷ t.1)) (sym same)
      ∙ (count-swap p q.0 m q.1
          ∙ (count-cons p m (q.0 ∷ q.1)
              ∙ (ap (λ k. (if p m then 1 else 0) + k) (count-take_out name memos p q f)
                  ∙ sym (count-cons p m memos))))
]
  where
    put : Memo × List Memo → Memo × List Memo
    put t = (t.0, m ∷ t.1)

    found : Bool → Option (Memo × List Memo)
    found b = if b then some (m, memos) else map_option put (take_out name memos)

pub count-hoist_memo_to_front :
    (memos : List Memo) (name : Option Text) (p : Memo → Bool)
    → count p (hoist_memo_to_front memos name) ≡ count p memos
unfolding hoist_memo_to_front put_first
count-hoist_memo_to_front memos none p = refl
count-hoist_memo_to_front memos (some []) p = refl
count-hoist_memo_to_front memos (some (c ∷ s)) p = elim (Option-cases (take_out (c ∷ s) memos)) [
  | inl e ↦ ap (λ t. count p (put_first memos t)) e
  | inr (r, e) ↦ ap (λ t. count p (put_first memos t)) e ∙ count-take_out (c ∷ s) memos p r e
]

abbrev pub first_name : List Memo → Option Text
first_name [] = none
first_name (m ∷ memos) = some m.name

-- The name of the memo that was taken out, if one was.
abbrev taken_name : Option (Memo × List Memo) → Option Text
taken_name none = none
taken_name (some r) = some (r.0).name

take_out-name :
    (name : Text) (memos : List Memo)
    → taken_name (take_out name memos)
      ≡ (if any (λ m. text_eq m.name name) memos then some name else none)
unfolding take_out
take_out-name name [] = refl
take_out-name name (m ∷ memos) = elim (Bool-cases (text_eq m.name name)) [
  | inl e ↦ rw e (ap some (text_eq_sound m.name name e))
  | inr e ↦ rw e (kept (take_out name memos) ∙ take_out-name name memos)
]
  where
    kept :
        (r : Option (Memo × List Memo))
        → taken_name (map_option {B = Memo × List Memo} (λ r. (r.0, m ∷ r.1)) r) ≡ taken_name r
    kept none = refl
    kept (some r) = refl

pub hoist_memo_to_front-first :
    (memos : List Memo) (name : Text)
    → first_name (hoist_memo_to_front memos (some name)) ≡ (
        if not (text_eq name []) && any (λ m. text_eq m.name name) memos
        then some name
        else first_name memos)
unfolding hoist_memo_to_front put_first
hoist_memo_to_front-first memos [] = refl
hoist_memo_to_front-first memos (c ∷ s) =
    put (take_out (c ∷ s) memos)
    ∙ (ap (or_first memos) (take_out-name (c ∷ s) memos)
        ∙ either (any (λ m. text_eq m.name (c ∷ s)) memos) (c ∷ s) (first_name memos))
  where
    or_first : List Memo → Option Text → Option Text
    or_first memos n = or_else n (first_name memos)

    put :
        (r : Option (Memo × List Memo))
        → first_name (put_first memos r) ≡ or_first memos (taken_name r)
    put none = refl
    put (some r) = refl

    either :
        (b : Bool) (n : Text) (o : Option Text)
        → or_else (if b then some n else none) o ≡ (if b then some n else o)
    either true n o = refl
    either false n o = refl
