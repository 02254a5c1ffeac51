-- ===== src/Common/Splitting.antt =====
-- Splitting a text at a character and joining the pieces.
use Prim.Native.Nat.{ℕ}
use mathlib.Core.Path.{◌≡◌, refl, sym, ap, ap₂, ◌∙◌}
use mathlib.Core.Logic.{inl, inr}
use mathlib.Core.Bool.{Bool, false}
use mathlib.Core.List.{List, [], ◌∷◌, ◌++◌, append_assoc}
use memos_note.Common.Tests.{◌==◌, ==_iff, Bool-cases, neither}
use memos_note.Common.Bools.{any, All}
use memos_note.Common.Texts.{Text, join, cons_piece, split, split-ne-nil}

-- A text that has a character.
abbrev pub has_char : ℕ → Text → Bool
has_char d s = any (λ c. c == d) s

module _ (d : ℕ) where
  pub split-no_char : (s : Text) → All (λ l. has_char d l ≡ false) (split d s)
  split-no_char [] = (refl, tt)
  split-no_char (a ∷ s) = elim (Bool-cases (a == d)) [
    | inl e ↦ rw e (refl, split-no_char s)
    | inr e ↦ rw e (longer a (split d s) e (split-no_char s))
  ]
    where
      longer :
          (a : ℕ) (ls : List Text)
          → (a == d) ≡ false
          → All (λ l. any (λ x. x == d) l ≡ false) ls
          → All (λ l. any (λ x. x == d) l ≡ false) (cons_piece a ls)
      longer a [] e h = (rw e refl, tt)
      longer a (l ∷ ls) e (h, k) = (rw e h, k)

  join-nil :
      (ls : List Text) (p : Text) (ps : List Text)
      → ls ≡ p ∷ ps
      → join (d ∷ []) ([] ∷ ls) ≡ d ∷ join (d ∷ []) ls
  join-nil ls p ps f = rw f refl

  join-cons_piece :
      (a : ℕ) (ls : List Text) → join (d ∷ []) (cons_piece a ls) ≡ a ∷ join (d ∷ []) ls
  join-cons_piece a [] = refl
  join-cons_piece a (l ∷ []) = refl
  join-cons_piece a (l ∷ m ∷ ls) = refl

  pub join-split : (s : Text) → join (d ∷ []) (split d s) ≡ s
  join-split [] = refl
  join-split (a ∷ s) =
      let (p, ps, f) = split-ne-nil d s in
      elim (Bool-cases (a == d)) [
        | inl e ↦ rw e (
            join-nil (split d s) p ps f
            ∙ ap₂ (λ b t. b ∷ t) (sym ((==_iff a d).0 e)) (join-split s))
        | inr e ↦ rw e (join-cons_piece a (split d s) ∙ ap (λ t. a ∷ t) (join-split s))
      ]

  pub split-line : (l s : Text) → has_char d l ≡ false → split d (l ++ d ∷ s) ≡ l ∷ split d s
  split-line [] s h = rw ((==_iff d d).1 refl) refl
  split-line (a ∷ l) s h =
      let (e, k) = neither (a == d) (any (λ x. x == d) l) h in
      rw e (ap (cons_piece a) (split-line l s k))

  pub split-single : (l : Text) → has_char d l ≡ false → split d l ≡ l ∷ []
  split-single [] h = refl
  split-single (a ∷ l) h =
      let (e, k) = neither (a == d) (any (λ x. x == d) l) h in
      rw e (ap (cons_piece a) (split-single l k))

  join-more :
      (l m : Text) (ls : List Text) → join (d ∷ []) (l ∷ m ∷ ls) ≡ l ++ d ∷ join (d ∷ []) (m ∷ ls)
  join-more l m ls = append_assoc l (d ∷ []) (join (d ∷ []) (m ∷ ls))

  pub split-join :
      (l : Text) (ls : List Text)
      → All (λ l. has_char d l ≡ false) (l ∷ ls)
      → split d (join (d ∷ []) (l ∷ ls)) ≡ l ∷ ls
  split-join l [] (h, k) = split-single l h
  split-join l (m ∷ ls) (h, k) =
      let first : split d (join (d ∷ []) (l ∷ m ∷ ls)) ≡ l ∷ split d (join (d ∷ []) (m ∷ ls)) =
        ap (split d) (join-more l m ls) ∙ split-line l (join (d ∷ []) (m ∷ ls)) h in
      first ∙ ap (λ r. l ∷ r) (split-join m ls k)

  pub split-join_some :
      (ls : List Text) (p : Text) (ps : List Text)
      → ls ≡ p ∷ ps
      → All (λ l. has_char d l ≡ false) ls
      → split d (join (d ∷ []) ls) ≡ ls
  split-join_some [] p ps e h = cc
  split-join_some (l ∷ ls) p ps e h = split-join l ls h
