-- ===== src/Editor/Draft/View.antt =====
-- What becomes of a draft, by an account that knows no timers.
use memos_note.Common.{
  ◌==◌, if◌then◌else◌, Bool-cases, Option-cases, find, find_sound, map_option, Text, text_eq,
  text_eq_sound, text_eq_refl, is_blank, ℕ, ◌≡◌, refl, sym, ap, ◌∙◌, inl, inr, Bool, false, Option,
  none, some, List, [], ◌∷◌, arith,
}
use memos_note.Editor.Draft.{
  get_key, Timer, Drafts, clear_pending, write_entry, save, save_now, clear, clear_all, run_timer,
  fire,
}
use memos_note.Editor.Draft.Timers.{
  get_key-set_key, get_key-delete_key, find-append, find-All, All-find, has_key, IsKeyed,
  pending_id, find-clear_pending,
}
use memos_note.Editor.Draft.Keyed.{
  forget-IsKeyed, save-IsKeyed, clear_all-timers, clear_all-IsKeyed,
}

pub data Event : Type 0 where
  saves : Text → Text → Event
  saves_now : Text → Text → Event
  clears : Text → Event
  clears_all : Event
  fires : ℕ → Event

abbrev pub apply : Event → Drafts → Drafts
apply (saves k c) d = save k c d
apply (saves_now k c) d = save_now k c d
apply (clears k) d = clear k d
apply clears_all d = clear_all d
apply (fires i) d = fire i d

-- Of one key: the content that is to be written, and the one in storage.
pub record View : Type 0 where
  pub coming : Option Text
  pub stored : Option Text

abbrev pub view : Drafts → Text → View
view d k = record {
  coming = map_option (λ t. t.content) (find (has_key k) d.timers);
  stored = get_key k d.storage;
}

abbrev pub entry : Text → Option Text
entry content = if is_blank content then none else some content

abbrev pub land : View → View
land v = record { coming = none; stored = elim v.coming [ none ↦ v.stored | some c ↦ entry c ] }

abbrev pub is_key : Option Text → Text → Bool
is_key none k = false
is_key (some k') k = text_eq k' k

-- The key whose timer an event runs.
abbrev pub fired : Event → Drafts → Option Text
fired (fires i) d = map_option (λ t. t.key) (find (λ t. t.id == i) d.timers)
fired _ d = none

abbrev pub account : Event → Option Text → Text → View → View
account (saves k c) f k' v = if text_eq k k' then record v { coming = some c } else v
account (saves_now k c) f k' v =
    if text_eq k k' then record { coming = none; stored = entry c } else v
account (clears k) f k' v = if text_eq k k' then record { coming = none; stored = none } else v
account clears_all f k' v = record v { coming = none }
account (fires i) f k' v = if is_key f k' then land v else v

pub get_key-write_entry :
    (k k' content : Text) (storage : List (Text × Text))
    → get_key k' (write_entry k content storage)
      ≡ (if text_eq k k' then entry content else get_key k' storage)
unfolding write_entry
get_key-write_entry k k' content storage = elim (Bool-cases (is_blank content)) [
  | inl h ↦ rw h (get_key-delete_key k k' storage)
  | inr h ↦ rw h (get_key-set_key k k' content storage)
]

-- The timer that runs is the pending one of its key.
run_timer-eq :
    (d : Drafts) (t : Timer) (i : ℕ)
    → IsKeyed d
    → find (λ t'. t'.id == i) d.timers ≡ some t
    → fire i d ≡ save_now t.key t.content d
unfolding fire run_timer save_now clear_pending
run_timer-eq d t i w h = rw h (
    rw
      (All-find (λ t'. get_key t'.key d.pending_saves ≡ some t'.id) (λ t'. t'.id == i) d.timers t
        w.running h)
      refl)

fire-none : (d : Drafts) (i : ℕ) → find (λ t. t.id == i) d.timers ≡ none → fire i d ≡ d
unfolding fire run_timer
fire-none d i h = rw h refl

pub apply-IsKeyed : (e : Event) (d : Drafts) → IsKeyed d → IsKeyed (apply e d)
unfolding save_now clear
apply-IsKeyed (saves k c) d w = save-IsKeyed d k c w
apply-IsKeyed (saves_now k c) d w = forget-IsKeyed d k _ w
apply-IsKeyed (clears k) d w = forget-IsKeyed d k _ w
apply-IsKeyed clears_all d w = clear_all-IsKeyed d w
apply-IsKeyed (fires i) d w = elim (Option-cases (find (λ t. t.id == i) d.timers)) [
  | inl h ↦ rw (fire-none d i h) w
  | inr (t, h) ↦ rw (run_timer-eq d t i w h) (forget-IsKeyed d t.key _ w)
]

-- The content of a running timer is what is to be written for its key.
coming-fired :
    (d : Drafts) (t : Timer) (i : ℕ)
    → IsKeyed d
    → find (λ t'. t'.id == i) d.timers ≡ some t
    → (view d t.key).coming ≡ some t.content
coming-fired d t i w h =
    let r =
      All-find (λ t'. get_key t'.key d.pending_saves ≡ some t'.id) (λ t'. t'.id == i) d.timers t
        w.running h in
    let c =
      All-find (λ t'. t'.content ≡ w.content_of t'.id) (λ t'. t'.id == i) d.timers t w.contents h in
    elim (Option-cases (find (has_key t.key) d.timers)) [
      | inl n ↦
          let f =
            All-find (λ t'. has_key t.key t' ≡ false) (λ t'. t'.id == i) d.timers t
              (find-All (has_key t.key) d.timers n) h in
          let g = text_eq_refl t.key in cc
      | inr (t1, h1) ↦
          let r1 =
            All-find (λ t'. get_key t'.key d.pending_saves ≡ some t'.id) (has_key t.key) d.timers t1
              w.running h1 in
          let c1 =
            All-find (λ t'. t'.content ≡ w.content_of t'.id) (has_key t.key) d.timers t1 w.contents
              h1 in
          let e1 = text_eq_sound t1.key t.key (find_sound (has_key t.key) d.timers t1 h1) in
          let i1 = pending_id d.pending_saves t1 t.key t.id r1 r e1 in
          rw h1 (ap some (c1 ∙ (ap w.content_of i1 ∙ sym c)))
    ]

view-save :
    (d : Drafts) (k c k' : Text)
    → IsKeyed d
    → view (save k c d) k' ≡ account (saves k c) none k' (view d k')
unfolding save
view-save d k c k' w =
    rw
      (find-append (has_key k') (clear_pending (get_key k d.pending_saves) d.timers)
        (record { id = d.next_id; key = k; content = c } ∷ []))
      (rw (find-clear_pending d k k' w) (ground arith))

view-save_now :
    (d : Drafts) (k c k' : Text)
    → IsKeyed d
    → view (save_now k c d) k' ≡ account (saves_now k c) none k' (view d k')
unfolding save_now
view-save_now d k c k' w =
    rw (find-clear_pending d k k' w) (rw (get_key-write_entry k k' c d.storage) (ground arith))

view-clear :
    (d : Drafts) (k k' : Text)
    → IsKeyed d
    → view (clear k d) k' ≡ account (clears k) none k' (view d k')
unfolding clear
view-clear d k k' w =
    rw (find-clear_pending d k k' w) (rw (get_key-delete_key k k' d.storage) (ground arith))

clear_all-storage :
    (d : Drafts) (k : Text)
    → ◌≡◌ {A = View}
        (record { coming = none; stored = get_key k (clear_all d).storage })
        (record { coming = none; stored = get_key k d.storage })
unfolding clear_all
clear_all-storage d k = refl

land-view :
    (d : Drafts) (k content : Text)
    → (view d k).coming ≡ some content
    → land (view d k) ≡ record { coming = none; stored = entry content }
land-view d k content h = rw h refl

-- Whatever is done to the drafts, what is to be written for a key and what is in storage for it are
-- what the account by keys alone says, and the timers stay those of the pending saves.
pub view-apply :
    (e : Event) (d : Drafts) (k : Text)
    → IsKeyed d
    → IsKeyed (apply e d) × (view (apply e d) k ≡ account e (fired e d) k (view d k))
view-apply e d k w = (apply-IsKeyed e d w, go e)
  where
    land-fired :
        (i : ℕ) (t : Timer)
        → find (λ t'. t'.id == i) d.timers ≡ some t
        → (if text_eq t.key k then record { coming = none; stored = entry t.content } else view d k)
          ≡ (if text_eq t.key k then land (view d k) else view d k)
    land-fired i t h = elim (Bool-cases (text_eq t.key k)) [
      | inl e ↦ rw e (
          sym (
            land-view d k t.content (
              ap (λ k'. (view d k').coming) (sym (text_eq_sound t.key k e))
              ∙ coming-fired d t i w h)))
      | inr e ↦ rw e
    ]

    go : (e : Event) → view (apply e d) k ≡ account e (fired e d) k (view d k)
    go (saves k1 c) = view-save d k1 c k w
    go (saves_now k1 c) = view-save_now d k1 c k w
    go (clears k1) = view-clear d k1 k w
    go clears_all = rw (clear_all-timers d w) (clear_all-storage d k)
    go (fires i) = elim (Option-cases (find (λ t. t.id == i) d.timers)) [
      | inl h ↦ rw h (rw (fire-none d i h) refl)
      | inr (t, h) ↦ rw h (
          rw (run_timer-eq d t i w h) (rw (view-save_now d t.key t.content k w) (land-fired i t h)))
    ]
