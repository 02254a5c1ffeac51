-- ===== src/Editor/Draft/Keyed.antt =====
-- Every operation keeps the timers those of the pending saves.
use memos_note.Common.{
  ◌==◌, if◌then◌else◌, Bool-cases, Option-cases, All, All-append, Text, text_eq, text_eq_sound,
  text_eq_refl, ℕ, ◌≡◌, refl, sym, ◌∙◌, ◌⊎◌, inl, inr, Bool, true, false, not, ◌||◌, Option, none,
  some, some-injective, List, [], ◌∷◌, arith,
}
use memos_note.Editor.Draft.{
  get_key, set_key, delete_key, Timer, Drafts, clear_timeout, clear_pending, save, clear_timeouts,
  clear_all,
}
use memos_note.Editor.Draft.Timers.{
  get_key-set_key, get_key-delete_key, All-imp-filter, All-imp, IsKeyed, pending_id,
}

-- The timers that are left when the pending one of a key is cleared belong to other keys.
clear_pending-others :
    (d : Drafts) (k : Text)
    → IsKeyed d
    → All
        (λ t. (get_key t.key d.pending_saves ≡ some t.id) × (text_eq k t.key ≡ false))
        (clear_pending (get_key k d.pending_saves) d.timers)
unfolding clear_pending clear_timeout
clear_pending-others d k w = elim (Option-cases (get_key k d.pending_saves)) [
  | inl h ↦ rw h (
      All-imp
        (λ t r. (
          r,
          elim (Bool-cases (text_eq k t.key)) [
            | inl m ↦ let m' = text_eq_sound k t.key m in cc
            | inr m ↦ m
          ],
        ))
        d.timers w.running)
  | inr (i, h) ↦ rw h (
      All-imp-filter (λ t. not (t.id == i))
        (λ t q r. (
          r,
          elim (Bool-cases (text_eq k t.key)) [
            | inl m ↦
                let t-i = pending_id d.pending_saves t k i r h (sym (text_eq_sound k t.key m)) in
                ground arith
            | inr m ↦ m
          ],
        ))
        d.timers w.running)
]

get_key-delete_key_inverse :
    (k k1 : Text) (m : List (Text × ℕ)) (i : ℕ)
    → get_key k1 (delete_key k m) ≡ some i
    → get_key k1 m ≡ some i
get_key-delete_key_inverse k k1 m i h = ground (arith, get_key-delete_key k k1 m)

get_key-set_key_inverse :
    (k k1 : Text) (n : ℕ) (m : List (Text × ℕ)) (i : ℕ)
    → get_key k1 (set_key k n m) ≡ some i
    → ((k ≡ k1) × (n ≡ i)) ⊎ (get_key k1 m ≡ some i)
get_key-set_key_inverse k k1 n m i h = elim (Bool-cases (text_eq k k1)) [
  | inl e ↦
      let n-i : some n ≡ some i = ground (arith, get_key-set_key k k1 n m) in
      inl (text_eq_sound k k1 e, some-injective n i n-i)
  | inr e ↦ inr (ground (arith, get_key-set_key k k1 n m))
]

clear_pending-contents :
    (f : ℕ → Text) (o : Option ℕ) (ts : List Timer)
    → All (λ t. t.content ≡ f t.id) ts
    → All (λ t. t.content ≡ f t.id) (clear_pending o ts)
unfolding clear_pending clear_timeout
clear_pending-contents f none ts h = h
clear_pending-contents f (some i) ts h = All-imp-filter (λ t. not (t.id == i)) (λ t q r. r) ts h

All-zip {ℓ κ μ} :
    {A : Type ℓ} (P : A → Type κ) (Q : A → Type μ) (xs : List A)
    → All P xs
    → All Q xs
    → All (λ x. P x × Q x) xs
All-zip P Q [] _ _ = tt
All-zip P Q (x ∷ xs) (h, hs) (k, ks) = ((h, k), All-zip P Q xs hs ks)

-- Forgetting what is pending for a key.
pub forget-IsKeyed :
    (d : Drafts) (k : Text) (storage : List (Text × Text))
    → IsKeyed d
    → IsKeyed (record d {
      storage = storage;
      pending_saves = delete_key k d.pending_saves;
      timers = clear_pending (get_key k d.pending_saves) d.timers;
    })
forget-IsKeyed d k storage w = record {
  running =
      All-imp (λ t r. rw (get_key-delete_key k t.key d.pending_saves) (rw r.1 r.0)) _
        (clear_pending-others d k w);
  apart = λ k1 k2 i h1 h2.
      w.apart k1 k2 i (get_key-delete_key_inverse k k1 d.pending_saves i h1)
        (get_key-delete_key_inverse k k2 d.pending_saves i h2);
  issued = λ k1 i h1. w.issued k1 i (get_key-delete_key_inverse k k1 d.pending_saves i h1);
  content_of = w.content_of;
  contents = clear_pending-contents w.content_of _ d.timers w.contents;
}

pub save-IsKeyed : (d : Drafts) (k content : Text) → IsKeyed d → IsKeyed (save k content d)
unfolding save
save-IsKeyed d k content w = record {
  running =
      All-append _ (clear_pending (get_key k d.pending_saves) d.timers) _
        (All-imp (λ t r. rw (get_key-set_key k t.key d.next_id d.pending_saves) (rw r.1 r.0)) _
          (clear_pending-others d k w))
        (rw (get_key-set_key k k d.next_id d.pending_saves) (rw (text_eq_refl k) refl), tt);
  apart = λ k1 k2 i h1 h2. elim (get_key-set_key_inverse k k1 d.next_id d.pending_saves i h1) [
    | inl (e1, n1) ↦ elim (get_key-set_key_inverse k k2 d.next_id d.pending_saves i h2) [
      | inl (e2, n2) ↦ sym e1 ∙ e2
      | inr g2 ↦ let b = w.issued k2 i g2 in absurd (omega arith)
    ]
    | inr g1 ↦ elim (get_key-set_key_inverse k k2 d.next_id d.pending_saves i h2) [
      | inl (e2, n2) ↦ let b = w.issued k1 i g1 in absurd (omega arith)
      | inr g2 ↦ w.apart k1 k2 i g1 g2
    ]
  ];
  issued = λ k1 i h1. elim (get_key-set_key_inverse k k1 d.next_id d.pending_saves i h1) [
    | inl (e1, n1) ↦ omega arith
    | inr g1 ↦ let b = w.issued k1 i g1 in omega arith
  ];
  content_of = λ i. if i == d.next_id then content else w.content_of i;
  contents =
      All-append _ (clear_pending (get_key k d.pending_saves) d.timers) _
        (All-imp (λ t r. let b = w.issued t.key t.id r.0.0 in ground (arith, r.1)) _
          (All-zip _ _ _ (clear_pending-others d k w)
            (clear_pending-contents w.content_of _ d.timers w.contents)))
        (ground arith, tt);
}

has_id : ℕ → List (Text × ℕ) → Bool
has_id i [] = false
has_id i ((k, j) ∷ m) = (j == i) || has_id i m

get_key-has_id : (k : Text) (i : ℕ) (m : List (Text × ℕ)) → get_key k m ≡ some i → has_id i m ≡ true
unfolding get_key has_id
get_key-has_id k i [] h = cc
get_key-has_id k i ((k', j) ∷ m) h = elim (Bool-cases (text_eq k' k)) [
  | inl e ↦
      let j-i : some j ≡ some i = ground arith in let j-i' = some-injective j i j-i in ground arith
  | inr e ↦
      let h' : get_key k m ≡ some i = ground arith in
      let g = get_key-has_id k i m h' in ground arith
]

clear_timeouts_every :
    (m : List (Text × ℕ)) (ts : List Timer)
    → All (λ t. has_id t.id m ≡ true) ts
    → clear_timeouts m ts ≡ []
unfolding clear_timeouts clear_timeout has_id
clear_timeouts_every [] [] h = refl
clear_timeouts_every [] (t ∷ ts) (h, _) = cc
clear_timeouts_every ((k, i) ∷ m) ts h =
    clear_timeouts_every m _ (All-imp-filter (λ t. not (t.id == i)) (λ t q r. ground arith) ts h)

pub clear_all-timers : (d : Drafts) → IsKeyed d → (clear_all d).timers ≡ []
unfolding clear_all
clear_all-timers d w =
    clear_timeouts_every d.pending_saves d.timers
      (All-imp (λ t r. get_key-has_id t.key t.id d.pending_saves r) d.timers w.running)

pub clear_all-IsKeyed : (d : Drafts) → IsKeyed d → IsKeyed (clear_all d)
unfolding clear_all get_key
clear_all-IsKeyed d w = record {
  running = rw (clear_all-timers d w) tt;
  apart = λ k k' i h h'. cc;
  issued = λ k i h. cc;
  content_of = w.content_of;
  contents = rw (clear_all-timers d w) tt;
}
