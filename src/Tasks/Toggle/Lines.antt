-- ===== src/Tasks/Toggle/Lines.antt =====
-- The lines of a text: taken apart and put together, and one of them changed.
use memos_note.Common.{
  ◌==◌, get_elem?, set, any, All, Text, join, split, split-ne-nil, split-no_char, split-join_some,
  ℕ, zero, suc, ◌≡◌, refl, sym, ap, ◌∙◌, Bool, false, none, some, some-injective, List, [], ◌∷◌,
}
use memos_note.Tasks.Toggle.{newline}

abbrev pub has_newline : Text → Bool
has_newline s = any (λ c. c == newline) s

-- One element changed by a function.
abbrev pub alter : (Text → Text) → List Text → ℕ → List Text
alter f [] n = []
alter f (l ∷ ls) zero = f l ∷ ls
alter f (l ∷ ls) (suc n) = l ∷ alter f ls n

pub alter-set :
    (f : Text → Text) (ls : List Text) (n : ℕ) (l : Text)
    → get_elem? ls n ≡ some l
    → alter f ls n ≡ set ls n (f l)
alter-set f [] n l h = cc
alter-set f (m ∷ ls) zero l h = ap (λ x. f x ∷ ls) (some-injective m l h)
alter-set f (m ∷ ls) (suc n) l h = ap (λ x. m ∷ x) (alter-set f ls n l h)

pub alter-same :
    (f : Text → Text) (ls : List Text) (n : ℕ) (l : Text)
    → get_elem? ls n ≡ some l
    → f l ≡ l
    → alter f ls n ≡ ls
alter-same f [] n l h k = refl
alter-same f (m ∷ ls) zero l h k =
    let e : m ≡ l = some-injective m l h in ap (λ x. x ∷ ls) (ap f e ∙ (k ∙ sym e))
alter-same f (m ∷ ls) (suc n) l h k = ap (λ x. m ∷ x) (alter-same f ls n l h k)

pub alter-none :
    (f : Text → Text) (ls : List Text) (n : ℕ) → get_elem? ls n ≡ none → alter f ls n ≡ ls
alter-none f [] n h = refl
alter-none f (m ∷ ls) zero h = cc
alter-none f (m ∷ ls) (suc n) h = ap (λ x. m ∷ x) (alter-none f ls n h)

pub alter-alter :
    (f g : Text → Text) (ls : List Text) (n : ℕ)
    → ((l : Text) → f (g l) ≡ f l)
    → alter f (alter g ls n) n ≡ alter f ls n
alter-alter f g [] n h = refl
alter-alter f g (m ∷ ls) zero h = ap (λ x. x ∷ ls) (h m)
alter-alter f g (m ∷ ls) (suc n) h = ap (λ x. m ∷ x) (alter-alter f g ls n h)

alter-no_newline :
    (f : Text → Text) (ls : List Text) (n : ℕ)
    → ((l : Text) → has_newline l ≡ false → has_newline (f l) ≡ false)
    → All (λ l. has_newline l ≡ false) ls
    → All (λ l. has_newline l ≡ false) (alter f ls n)
alter-no_newline f [] n k h = tt
alter-no_newline f (l ∷ ls) zero k (h, hs) = (k l h, hs)
alter-no_newline f (l ∷ ls) (suc n) k (h, hs) = (h, alter-no_newline f ls n k hs)

alter-some :
    (f : Text → Text) (ls : List Text) (n : ℕ) (p : Text) (ps : List Text)
    → ls ≡ p ∷ ps
    → (q : Text) × (qs : List Text) × (alter f ls n ≡ q ∷ qs)
alter-some f ls zero p ps e = (f p, ps, ap (λ x. alter f x zero) e)
alter-some f ls (suc n) p ps e = (p, alter f ps n, ap (λ x. alter f x (suc n)) e)

pub lines_of_alter :
    (f : Text → Text) (markdown : Text) (n : ℕ)
    → ((l : Text) → has_newline l ≡ false → has_newline (f l) ≡ false)
    → split newline (join (newline ∷ []) (alter f (split newline markdown) n))
      ≡ alter f (split newline markdown) n
lines_of_alter f markdown n k =
    let (p, ps, e) = split-ne-nil newline markdown in
    let (q, qs, e') = alter-some f (split newline markdown) n p ps e in
    split-join_some newline (alter f (split newline markdown) n) q qs e'
      (alter-no_newline f (split newline markdown) n k (split-no_char newline markdown))
