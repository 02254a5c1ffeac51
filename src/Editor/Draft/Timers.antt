-- ===== src/Editor/Draft/Timers.antt =====
-- The timers that run are those of the pending saves.
use memos_note.Common.{
  ◌==◌, if◌then◌else◌, Bool-cases, Option-cases, is_some, filter, find, All, Text, text_eq,
  text_eq_sound, text_eq_refl, ℕ, ◌<◌, ◌≡◌, refl, sym, ap, ◌∙◌, inl, inr, Bool, true, false, not,
  none, some, some-injective, List, [], ◌∷◌, ◌++◌, arith,
}
use memos_note.Editor.Draft.{
  get_key, set_key, delete_key, Timer, Drafts, no_drafts, clear_timeout, clear_pending,
}

text_eq-apart :
    (k1 k k' : Text) → text_eq k1 k ≡ false → text_eq k1 k' ≡ true → text_eq k k' ≡ false
text_eq-apart k1 k k' h h' = elim (Bool-cases (text_eq k k')) [
  | inl e ↦
      let e1 = text_eq_sound k k' e in
      let e2 = text_eq_sound k1 k' h' in let e3 = text_eq_refl k in cc
  | inr e ↦ e
]

module _ {ℓ} {A : Type ℓ} where
  pub get_key-set_key :
      (k k' : Text) (a : A) (m : List (Text × A))
      → get_key k' (set_key k a m) ≡ (if text_eq k k' then some a else get_key k' m)
  unfolding get_key set_key
  get_key-set_key k k' a [] = refl
  get_key-set_key k k' a ((k1, a1) ∷ m) = elim (Bool-cases (text_eq k1 k)) [
    | inl h ↦ rw h (rw (text_eq_sound k1 k h) (ground arith))
    | inr h ↦ rw h (rw (get_key-set_key k k' a m) (ground (arith, text_eq-apart k1 k k' h)))
  ]

  pub get_key-delete_key :
      (k k' : Text) (m : List (Text × A))
      → get_key k' (delete_key k m) ≡ (if text_eq k k' then none else get_key k' m)
  unfolding get_key delete_key
  get_key-delete_key k k' [] = ground arith
  get_key-delete_key k k' ((k1, a1) ∷ m) = elim (Bool-cases (text_eq k1 k)) [
    | inl h ↦ rw h (rw (get_key-delete_key k k' m) (rw (text_eq_sound k1 k h) (ground arith)))
    | inr h ↦ rw h (rw (get_key-delete_key k k' m) (ground (arith, text_eq-apart k1 k k' h)))
  ]

  pub find-append :
      (p : A → Bool) (xs ys : List A)
      → find p (xs ++ ys) ≡ (if is_some (find p xs) then find p xs else find p ys)
  find-append p [] ys = refl
  find-append p (x ∷ xs) ys = ground (arith, find-append p xs ys)

  pub All-imp-filter {κ μ} :
      {P : A → Type κ} {Q : A → Type μ} (q : A → Bool)
      → ((x : A) → q x ≡ true → P x → Q x)
      → (xs : List A) → All P xs
      → All Q (filter q xs)
  All-imp-filter q f [] _ = tt
  All-imp-filter q f (x ∷ xs) (h, hs) = elim (Bool-cases (q x)) [
    | inl e ↦ rw e (f x e h, All-imp-filter q f xs hs)
    | inr e ↦ rw e (All-imp-filter q f xs hs)
  ]

  pub All-imp {κ μ} :
      {P : A → Type κ} {Q : A → Type μ}
      → ((x : A) → P x → Q x)
      → (xs : List A) → All P xs
      → All Q xs
  All-imp f [] _ = tt
  All-imp f (x ∷ xs) (h, hs) = (f x h, All-imp f xs hs)

  -- What a test finds among the elements that another test keeps.
  pub find-filter {κ} :
      {P : A → Type κ} (p q : A → Bool)
      → ((x : A) → P x → p x ≡ true → q x ≡ true)
      → (xs : List A) → All P xs
      → find p (filter q xs) ≡ find p xs
  find-filter p q f [] _ = refl
  find-filter p q f (x ∷ xs) (h, hs) = elim (Bool-cases (q x)) [
    | inl e ↦ rw e (rw (find-filter p q f xs hs) refl)
    | inr e ↦ rw e (ground (arith, f x h, find-filter p q f xs hs))
  ]

  pub find-filter-none {κ} :
      {P : A → Type κ} (p q : A → Bool)
      → ((x : A) → P x → p x ≡ true → q x ≡ false)
      → (xs : List A) → All P xs
      → find p (filter q xs) ≡ none
  find-filter-none p q f [] _ = refl
  find-filter-none p q f (x ∷ xs) (h, hs) = elim (Bool-cases (q x)) [
    | inl e ↦ rw e (ground (arith, f x h, find-filter-none p q f xs hs))
    | inr e ↦ rw e (find-filter-none p q f xs hs)
  ]

  pub find-none {κ} :
      {P : A → Type κ} (p : A → Bool)
      → ((x : A) → P x → p x ≡ false)
      → (xs : List A) → All P xs
      → find p xs ≡ none
  find-none p f [] _ = refl
  find-none p f (x ∷ xs) (h, hs) = rw (f x h) (find-none p f xs hs)

  pub find-All : (p : A → Bool) (xs : List A) → find p xs ≡ none → All (λ x. p x ≡ false) xs
  find-All p [] h = tt
  find-All p (x ∷ xs) h = ground (arith, find-All p xs)

  pub All-find {κ} :
      (P : A → Type κ) (p : A → Bool) (xs : List A) (x : A) → All P xs → find p xs ≡ some x → P x
  All-find P p [] x _ h = cc
  All-find P p (y ∷ ys) x (k, ks) h = elim (Bool-cases (p y)) [
    | inl e ↦ let y-x : some y ≡ some x = ground arith in rw (sym (some-injective y x y-x)) k
    | inr e ↦ let h' : find p ys ≡ some x = ground arith in All-find P p ys x ks h'
  ]

abbrev pub has_key : Text → Timer → Bool
has_key k t = text_eq t.key k

-- A running timer is the pending save of its key, keys have different timers, and a timer's id
-- determines its content.
pub record IsKeyed (d : Drafts) : Type 0 where
  pub running : All (λ t. get_key t.key d.pending_saves ≡ some t.id) d.timers
  pub apart :
      (k k' : Text) (i : ℕ)
      → get_key k d.pending_saves ≡ some i
      → get_key k' d.pending_saves ≡ some i
      → k ≡ k'
  pub issued : (k : Text) (i : ℕ) → get_key k d.pending_saves ≡ some i → i < d.next_id
  pub content_of : ℕ → Text
  pub contents : All (λ t. t.content ≡ content_of t.id) d.timers

pub no_drafts-IsKeyed : IsKeyed no_drafts
unfolding get_key
no_drafts-IsKeyed = record {
  running = tt;
  apart = λ k k' i h h'. cc;
  issued = λ k i h. cc;
  content_of = λ i. [];
  contents = tt;
}

pub pending_id :
    (m : List (Text × ℕ)) (t : Timer) (k : Text) (i : ℕ)
    → get_key t.key m ≡ some t.id
    → get_key k m ≡ some i
    → t.key ≡ k
    → t.id ≡ i
pending_id m t k i r h e = some-injective t.id i (sym r ∙ (ap (λ x. get_key x m) e ∙ h))

-- What clearing the pending timer of a key leaves running.
pub find-clear_pending :
    (d : Drafts) (k k' : Text)
    → IsKeyed d
    → find (has_key k') (clear_pending (get_key k d.pending_saves) d.timers)
      ≡ (if text_eq k k' then none else find (has_key k') d.timers)
unfolding clear_pending clear_timeout
find-clear_pending d k k' w = elim (Option-cases (get_key k d.pending_saves)) [
  | inl h ↦ rw h (elim (Bool-cases (text_eq k k')) [
    | inl e ↦ rw e (
        find-none (has_key k')
          (λ t r. elim (Bool-cases (has_key k' t)) [
            | inl m ↦ let m' = text_eq_sound t.key k' m in let k-k' = text_eq_sound k k' e in cc
            | inr m ↦ m
          ])
          d.timers w.running)
    | inr e ↦ rw e
  ])
  | inr (i, h) ↦ rw h (elim (Bool-cases (text_eq k k')) [
    | inl e ↦
        let k-k' = text_eq_sound k k' e in
        rw e (
          find-filter-none (has_key k') (λ t. not (t.id == i))
            (λ t r m.
              let m' = text_eq_sound t.key k' m in
              let i' = pending_id d.pending_saves t k i r h (m' ∙ sym k-k') in ground arith)
            d.timers w.running)
    | inr e ↦ rw e (
        find-filter (has_key k') (λ t. not (t.id == i)) (λ t r m. id_apart t r m h e) d.timers
          w.running)
  ])
]
  where
    id_apart :
        {i : ℕ} (t : Timer)
        → get_key t.key d.pending_saves ≡ some t.id
        → has_key k' t ≡ true
        → get_key k d.pending_saves ≡ some i
        → text_eq k k' ≡ false
        → not (t.id == i) ≡ true
    id_apart {i} t r m h e = elim (Bool-cases (t.id == i)) [
      | inl q ↦
          let t-i : t.id ≡ i = ground arith in
          let k-t = w.apart k t.key i h (r ∙ ap some t-i) in
          let m' = text_eq_sound t.key k' m in let e' = text_eq_refl k in cc
      | inr q ↦ rw q
    ]
