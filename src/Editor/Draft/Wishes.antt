-- ===== src/Editor/Draft/Wishes.antt =====
-- The hook that saves drafts, against what the writer wants kept.
use memos_note.Common.{
  if◌then◌else◌, Bool-cases, Option-cases, is_some, Text, text_eq, text_eq_sound, text_eq_refl, ℕ,
  ◌≡◌, refl, sym, ap, ◌∙◌, inl, inr, Bool, true, false, Option, none, some, some-injective, List,
  [], ◌∷◌, arith,
}
use memos_note.Editor.Draft.{
  fire, AutoSave, is_discarded, persist, on_store_change, flush_draft, discard_draft,
}
use memos_note.Editor.Draft.Timers.{IsKeyed}
use memos_note.Editor.Draft.View.{
  saves, saves_now, clears, fires, View, view, entry, land, is_key, fired, view-apply,
}

pub data Action : Type 0 where
  changes : Text → Action
  flushes discards : Action
  runs_timer : ℕ → Action

-- What the writer wants kept, by an account that knows no storage: nothing after a discard, until
-- the content changes.
pub record Wish : Type 0 where
  pub latest : Text
  pub wanted : Option Text

abbrev pub wish : Action → Wish → Wish
wish (changes c) w = if text_eq c w.latest then w else record { latest = c; wanted = some c }
wish discards w = record w { wanted = none }
wish _ w = w

abbrev pub wishes : List Action → Wish → Wish
wishes [] w = w
wishes (e ∷ es) w = wishes es (wish e w)

abbrev pub is_idle : Action → Bool
is_idle flushes = true
is_idle (runs_timer i) = true
is_idle _ = false

abbrev pub view_of : Option Text → View
view_of o = record { coming = none; stored = elim o [ none ↦ none | some c ↦ entry c ] }

abbrev pub wanted_view : Wish → View
wanted_view w = view_of w.wanted

pub if_self {ℓ} : {A : Type ℓ} {x : A} (k : Text) (y : A) → (if text_eq k k then x else y) ≡ x
if_self k y = rw (text_eq_refl k) refl

pub landed : (v : View) → v.coming ≡ none → v ≡ land v
landed v h = ground (arith)

pub land-fires : (b : Bool) (v : View) → land (if b then land v else v) ≡ land v
land-fires true v = refl
land-fires false v = refl

pub coming-fires : (b : Bool) (v : View) → v.coming ≡ none → (if b then land v else v).coming ≡ none
coming-fires true v h = refl
coming-fires false v h = h

module _ (key : Text) where
  abbrev pub perform : Action → AutoSave → AutoSave
  perform (changes c) a = on_store_change key c a
  perform flushes a = flush_draft key a
  perform discards a = discard_draft key a
  perform (runs_timer i) a = record a { drafts = fire i a.drafts }

  abbrev pub perform_all : List Action → AutoSave → AutoSave
  perform_all [] a = a
  perform_all (e ∷ es) a = perform_all es (perform e a)

  pub record Agrees (a : AutoSave) (w : Wish) : Type 0 where
    pub keyed : IsKeyed a.drafts
    pub latest : a.latest_content ≡ w.latest
    pub wanted : w.wanted ≡ (if is_some a.discarded_content then none else some a.latest_content)
    pub discarded :
        a.discarded_content ≡ (if is_some a.discarded_content then some a.latest_content else none)
    pub lands : land (view a.drafts key) ≡ wanted_view w
    pub quiet : is_some a.discarded_content ≡ true → (view a.drafts key).coming ≡ none

  pub persist-Agrees :
      (a : AutoSave) (c : Text)
      → IsKeyed a.drafts
      → is_discarded a.discarded_content c ≡ false
      → Agrees (persist key c a) (record { latest = c; wanted = some c })
  unfolding persist
  persist-Agrees a c k h =
      let (k', v) = view-apply (saves key c) a.drafts key k in
      record {
        keyed = k';
        latest = refl;
        wanted = rw h refl;
        discarded = rw h refl;
        lands = ap land (v ∙ if_self key _);
        quiet = λ q.
            let n : is_some
                  (if is_discarded a.discarded_content c then a.discarded_content else none)
                ≡ false =
              rw h refl in
            cc;
      }

  -- What the ref of discarded content holds is the latest content.
  pub discarded_latest :
      (a : AutoSave) (w : Wish) (d : Text)
      → Agrees a w
      → a.discarded_content ≡ some d
      → d ≡ a.latest_content
  discarded_latest a w d r e = some-injective d a.latest_content (sym e ∙ (r.discarded ∙ rw e refl))

  pub not_discarded :
      (a : AutoSave) (w : Wish) (c : Text)
      → Agrees a w
      → text_eq c w.latest ≡ false
      → is_discarded a.discarded_content c ≡ false
  unfolding is_discarded
  not_discarded a w c r h = elim (Option-cases a.discarded_content) [
    | inl e ↦ rw e refl
    | inr (d, e) ↦ rw e (
        let d-latest = discarded_latest a w d r e in
        elim (Bool-cases (text_eq d c)) [
          | inl m ↦ let m' = text_eq_sound d c m in let l = r.latest in let q = text_eq_refl c in cc
          | inr m ↦ m
        ])
  ]

  pub changes-Agrees :
      (a : AutoSave) (w : Wish) (c : Text)
      → Agrees a w
      → Agrees (on_store_change key c a) (wish (changes c) w)
  unfolding on_store_change
  changes-Agrees a w c r = elim (Bool-cases (text_eq c w.latest)) [
    | inl h ↦ rw (ap (text_eq c) r.latest ∙ h) (rw h r)
    | inr h ↦
        rw (ap (text_eq c) r.latest ∙ h)
          (rw h (persist-Agrees a c r.keyed (not_discarded a w c r h)))
  ]

  pub discards-Agrees :
      (a : AutoSave) (w : Wish) → Agrees a w → Agrees (discard_draft key a) (wish discards w)
  unfolding discard_draft
  discards-Agrees a w r =
      let (k', v) = view-apply (clears key) a.drafts key r.keyed in
      record {
        keyed = k';
        latest = r.latest;
        wanted = refl;
        discarded = refl;
        lands = ap land (v ∙ if_self key _);
        quiet = λ _. ap (λ u. u.coming) (v ∙ if_self key _);
      }

  pub wanted_kept :
      (a : AutoSave) (w : Wish)
      → Agrees a w
      → is_discarded a.discarded_content a.latest_content ≡ false
      → wanted_view w ≡ record { coming = none; stored = entry a.latest_content }
  unfolding is_discarded
  wanted_kept a w r h = elim (Option-cases a.discarded_content) [
    | inl e ↦ let kept : w.wanted ≡ some a.latest_content = r.wanted ∙ rw e refl in ap view_of kept
    | inr (d, e) ↦
        let d-latest = discarded_latest a w d r e in
        let q : text_eq d a.latest_content ≡ false =
          ap (λ o. is_discarded o a.latest_content) (sym e) ∙ h in
        let q' = text_eq_refl d in cc
  ]

  pub flushes-Agrees : (a : AutoSave) (w : Wish) → Agrees a w → Agrees (flush_draft key a) w
  unfolding flush_draft
  flushes-Agrees a w r = elim (Bool-cases (is_discarded a.discarded_content a.latest_content)) [
    | inl h ↦ rw h r
    | inr h ↦ rw h (
        let (k', v) = view-apply (saves_now key a.latest_content) a.drafts key r.keyed in
        record {
          keyed = k';
          latest = r.latest;
          wanted = r.wanted;
          discarded = r.discarded;
          lands = ap land (v ∙ if_self key _) ∙ sym (wanted_kept a w r h);
          quiet = λ _. ap (λ u. u.coming) (v ∙ if_self key _);
        })
  ]

  pub runs_timer-Agrees :
      (a : AutoSave) (w : Wish) (i : ℕ)
      → Agrees a w
      → Agrees (record a { drafts = fire i a.drafts }) w
  runs_timer-Agrees a w i r =
      let (k', v) = view-apply (fires i) a.drafts key r.keyed in
      record {
        keyed = k';
        latest = r.latest;
        wanted = r.wanted;
        discarded = r.discarded;
        lands =
            ap land v
            ∙ (land-fires (is_key (fired (fires i) a.drafts) key) (view a.drafts key) ∙ r.lands);
        quiet = λ h.
            ap (λ u. u.coming) v
            ∙ coming-fires (is_key (fired (fires i) a.drafts) key) (view a.drafts key) (r.quiet h);
      }

  pub perform-Agrees :
      (e : Action) (a : AutoSave) (w : Wish) → Agrees a w → Agrees (perform e a) (wish e w)
  perform-Agrees (changes c) a w r = changes-Agrees a w c r
  perform-Agrees flushes a w r = flushes-Agrees a w r
  perform-Agrees discards a w r = discards-Agrees a w r
  perform-Agrees (runs_timer i) a w r = runs_timer-Agrees a w i r
